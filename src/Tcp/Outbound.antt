-- ===== src/Tcp/Outbound.antt =====
-- tcp_connection.rs: `spawn_outbound`, the task that dials a peer again and again. Times are seconds;
-- an attempt gives the bytes that come in over the connection, or an error.
use mathlib.Core.List.{append-nil, append_assoc}
use experimental_crdt.Base.{
  ℕ, zero, suc, ◌*◌, ◌^◌, ◌≤◌, min, String, true, List, [], ◌∷◌, ◌++◌, ◌≡◌, refl, Result, ok, err,
  arith,
}
use experimental_crdt.Proto.{Bytes, Envelope, Message}
use experimental_crdt.Registry.{Sender}
use experimental_crdt.Tcp.{Local, Node, run_connection}

abbrev pub reconnect_base : ℕ
reconnect_base = 1

abbrev pub reconnect_max : ℕ
reconnect_max = 30

-- the task: its backoff, how long it slept after each attempt so far, and what it changes
pub record Dialer (H Q : Type 0) : Type 0 where
  pub backoff : ℕ
  pub slept : List ℕ
  pub node : Node H Q

-- The wait after an attempt that stands that many failures behind the last connection, or behind the
-- start: an independent description of the backoff.
abbrev pub wait_after : (failures : ℕ) → ℕ
wait_after failures = min (2 ^ failures) reconnect_max

-- the wait after each attempt
abbrev pub waits : {H : Type 0} → (failures : ℕ) → List (H × Result Bytes) → List ℕ
waits failures [] = []
waits failures ((handle, ok input) ∷ more) = wait_after 0 ∷ waits 1 more
waits failures ((handle, err e) ∷ more) = wait_after failures ∷ waits (suc failures) more

-- every wait is at least the base and at most the maximum
abbrev pub Within : List ℕ → Type 0
Within [] = Unit {0}
Within (w ∷ ws) = (reconnect_base ≤ w) × (w ≤ reconnect_max) × Within ws

power_positive : (k : ℕ) → 1 ≤ 2 ^ k
power_positive zero = omega arith
power_positive (suc k) =
    let twice : 2 ^ suc k ≡ 2 * 2 ^ k = omega arith in omega (arith, twice, power_positive k)

double_wait : (k : ℕ) → min (wait_after k * 2) reconnect_max ≡ wait_after (suc k)
double_wait k = let twice : 2 ^ suc k ≡ 2 * 2 ^ k = omega arith in ground (arith, twice)

-- the end of a round: the sleep, and the backoff of the next one
unfoldable pub back_off : {H Q : Type 0} → Dialer H Q → Dialer H Q
back_off d = record d {
  slept = d.slept ++ (d.backoff ∷ []);
  backoff = min (d.backoff * 2) reconnect_max;
}

waits-Within :
    {H : Type 0} (failures : ℕ) (rounds : List (H × Result Bytes)) → Within (waits failures rounds)
waits-Within failures [] = tt
waits-Within failures ((handle, ok input) ∷ more) = (omega arith, omega arith, waits-Within 1 more)
waits-Within failures ((handle, err e) ∷ more) =
    (ground (arith, power_positive failures), ground arith, waits-Within (suc failures) more)

module _ {H Q : Type 0} (app_tx : Sender Q Envelope) (prost : Message Envelope)
    (local : Local) where
  -- one round of the loop; the handle is that of the connection's new channel
  unfoldable pub attempt : Dialer H Q → H → Result Bytes → Dialer H Q
  attempt d handle (ok input) = back_off (record d {
    backoff = reconnect_base;
    node = (run_connection app_tx prost local handle true input d.node).1;
  })
  attempt d handle (err e) = back_off d

  unfoldable pub attempts : Dialer H Q → List (H × Result Bytes) → Dialer H Q
  attempts d [] = d
  attempts d ((handle, connection) ∷ more) = attempts (attempt d handle connection) more

  -- The task: an address that is not resolved ends it before the first attempt.
  unfoldable pub spawn_outbound : Result String → Node H Q → List (H × Result Bytes) → Dialer H Q
  spawn_outbound (err e) node rounds = record { backoff = reconnect_base; slept = []; node = node }
  spawn_outbound (ok address) node rounds =
      attempts (record { backoff = reconnect_base; slept = []; node = node }) rounds

  slept-attempts :
      (rounds : List (H × Result Bytes)) (d : Dialer H Q) (failures : ℕ)
      → d.backoff ≡ wait_after failures
      → (attempts d rounds).slept ≡ d.slept ++ waits failures rounds
  unfolding attempts attempt back_off
  slept-attempts [] d failures h = ground (arith, append-nil d.slept)
  slept-attempts ((handle, ok input) ∷ more) d failures h = ground (
    arith,
    slept-attempts more (attempt d handle (ok input)) 1,
    append_assoc d.slept (wait_after 0 ∷ []) (waits 1 more),
  )
  slept-attempts ((handle, err e) ∷ more) d failures h = ground (
    arith,
    double_wait failures,
    slept-attempts more (attempt d handle (err e)) (suc failures),
    append_assoc d.slept (wait_after failures ∷ []) (waits (suc failures) more),
  )

  -- The task that dials a peer waits after each attempt as long as the description says: one second
  -- behind a connection, twice as long after each further failure, and thirty seconds at most; so every
  -- wait is of one to thirty seconds. The address was resolved.
  pub slept-spawn_outbound :
      (address : String) (node : Node H Q) (rounds : List (H × Result Bytes))
      → let slept = (spawn_outbound (ok address) node rounds).slept in
        (slept ≡ waits 0 rounds) × Within slept
  unfolding spawn_outbound
  slept-spawn_outbound address node rounds =
      let start : Dialer H Q = record { backoff = reconnect_base; slept = []; node = node } in
      let same : (attempts start rounds).slept ≡ waits 0 rounds =
        slept-attempts rounds start 0 refl in
      (same, rw same (waits-Within 0 rounds))

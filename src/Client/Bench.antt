-- ===== src/Client/Bench.antt =====
-- crdt_client.rs: the two benchmark modes. The random draws are given, a key and a coin for each round;
-- a dialled server is the bytes that it sends, or an error.
use experimental_crdt.Base.{
  ℕ, zero, suc, ◌+◌, String, Bool, true, false, not, ◌&&◌, Option, none, some, List, [], ◌∷◌, ◌≡◌,
  Result, ok, err, if◌then◌else◌, nat_eqb, leb, length, arith, ◌>>=◌, Result-cases, Option-cases,
  inl, inr,
}
use experimental_crdt.Text.{◌<>◌}
use experimental_crdt.Text.Decimal.{show_nat}
use experimental_crdt.Proto.{Bytes, Message, Command, add, remove_random, ProtoClientCommand}
use experimental_crdt.Client.{send_command, recv_response, Transcript, exchanged}

-- the command of a round: nothing is removed in the first one
unfoldable pub bench_command : ℕ → ℕ × Bool → Command
bench_command count (key, coin) =
    if not (nat_eqb count 0) && coin then remove_random true else add ("key-" <> show_nat key)

-- `if count >= max_requests { break; }`
abbrev pub is_done : Option ℕ → ℕ → Bool
is_done none count = false
is_done (some max_requests) count = leb max_requests count

-- The loop, over the draws: `none` where it goes on behind the last of them.
unfoldable pub run_bench :
    Message ProtoClientCommand → Option ℕ → ℕ → List (ℕ × Bool) → Bytes → Option (Result Transcript)
run_bench prost requests count [] input =
    if is_done requests count then some (ok (record { sent = []; printed = [] })) else none
run_bench prost requests count (draw ∷ draws) input =
    if is_done requests count
    then some (ok (record { sent = []; printed = [] }))
    else (elim (recv_response input) [
      | err e ↦ some (err e)
      | ok (response, rest) ↦ elim (run_bench prost requests (suc count) draws rest) [
        | none ↦ none
        | some more ↦ some (exchanged (send_command prost (bench_command count draw)) response more)
      ]
    ])

-- `gc-server-{i}:9100` or `normal-server-{i}:9100`
unfoldable pub server_address : String → ℕ → String
server_address kind i = kind <> ("-server-" <> (show_nat i <> ":9100"))

-- one loop of `run_one_request_per_server`: from server i on, one for each draw
unfoldable pub request_each :
    Message ProtoClientCommand
    → (connect : String → Result Bytes) → String
    → ℕ
    → List ℕ
    → Result Transcript
request_each prost connect kind i [] = ok (record { sent = []; printed = [] })
request_each prost connect kind i (key ∷ keys) = do
  input ← connect (server_address kind i)
  answered ← recv_response input
  exchanged (send_command prost (add (kind <> ("-key-" <> show_nat key)))) answered.0
      (request_each prost connect kind (suc i) keys)

-- both loops: as many draws as there are servers of each kind
unfoldable pub run_one_request_per_server :
    Message ProtoClientCommand
    → (connect : String → Result Bytes) → (gc normal : List ℕ) → Result (Transcript × Transcript)
run_one_request_per_server prost connect gc normal = do
  first ← request_each prost connect "gc" 1 gc
  second ← request_each prost connect "normal" 1 normal
  ok (first, second)

-- A benchmark that ends without an error has printed one response for each request that it was to
-- send.
pub length-run_bench :
    (prost : Message ProtoClientCommand) (max_requests left count : ℕ) (draws : List (ℕ × Bool))
    (input : Bytes) (t : Transcript)
    → max_requests ≡ count + left
    → run_bench prost (some max_requests) count draws input ≡ some (ok t)
    → length t.printed ≡ left
unfolding run_bench
length-run_bench prost max_requests left count [] input t enough h = ground arith
length-run_bench prost max_requests zero count (draw ∷ draws) input t enough h = ground arith
length-run_bench prost max_requests (suc left) count (draw ∷ draws) input t enough h =
    elim (Result-cases (recv_response input)) [
      | inr failed ↦ absurd (ground (arith, failed.1))
      | inl read ↦
          elim (Option-cases (run_bench prost (some max_requests) (suc count) draws read.0.1)) [
            | inl goes_on ↦ absurd (ground (arith, read.1, goes_on))
            | inr ended ↦ elim (Result-cases ended.0) [
              | inr failed ↦ absurd (ground (arith, read.1, ended.1, failed.1))
              | inl more ↦ ground (
                arith,
                read.1,
                ended.1,
                more.1,
                length-run_bench prost max_requests left (suc count) draws read.0.1 more.0
                    (omega (arith, enough)) (ground (arith, ended.1, more.1)),
              )
            ]
          ]
    ]

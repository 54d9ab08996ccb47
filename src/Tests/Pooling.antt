-- ===== src/Tests/Pooling.antt =====
-- Two processes of one consumer each, which are given the same job.
use go_spoc.Prelude.{◌≤◌, ◌≡◌, refl, false, List, [], ◌∷◌, codes}
use go_spoc.Prelude.Int.{pos}
use go_spoc.World.{Env, World, streams, text}
use go_spoc.World as Outside
use go_spoc.Db.{affected, update_where}
use go_spoc.Strings.Decimal.{parse_int, digits_value}
use go_spoc.Submission.Repository.{mark_running, update_running}
use go_spoc.Judge.Languages.{Judge}
use go_spoc.Queue.{consume, received, decode, parse_submission_id, string_field, ack}
use go_spoc.Worker.{Worker, publish}
use go_spoc.Worker.Consumer.{fetched, Context, advance, on_received, after_claim}
use go_spoc.Worker.Pool.{start, fleet, Move, work, move, work_at, go_on, play, judgings, holders}
use go_spoc.Worker.Pool.Once.{judged_once}
use go_spoc.Prelude.{true, arith}
use go_spoc.Worker.Consumer.{stopped}
use go_spoc.Worker.Pool.{Consumer, sweep_stale}
use go_spoc.Worker.Pool.Stops.{stage_at, play_stops}
use go_spoc.Tests.Fixtures.{hand, judge, calm, message, tables-IsKeyed}
use go_spoc.Tests.Fixtures as Fixtures

abbrev context : Context
context = record { before = false; after = false }

-- Redis gives the job of submission 1 to whoever asks.
abbrev generous : Env
generous = record calm {
  read_group = λ n consumer.
      streams (
        (record { id = codes "0-1"; values = ("submission_id", text (codes "1")) ∷ [] } ∷ []) ∷ []);
}

abbrev processes : List (Worker × Judge)
processes = (hand, judge) ∷ (hand, judge) ∷ []

-- Both fetch the job, and then both claim.
abbrev turns : List Move
turns = work 0 context ∷ work 1 context ∷ work 1 context ∷ work 0 context ∷ []

judged_once_example :
    (judgings (pos 1) turns generous (fleet processes, Fixtures.start) ≤ 1)
    × (holders (pos 1) (play turns generous (fleet processes, Fixtures.start)).0 ≤ 1)
judged_once_example = judged_once (pos 1) processes turns generous Fixtures.start tables-IsKeyed

second_wins : judgings (pos 1) turns generous (fleet processes, Fixtures.start) ≡ 1
unfolding judgings fleet start move work_at go_on advance consume Outside.read_messages received
    decode parse_submission_id string_field parse_int digits_value on_received mark_running
    update_running Outside.transact affected update_where after_claim publish Outside.send ack
second_wins = refl

-- The context is cancelled when the consumer has just fetched a job.
abbrev cancelled : Context
cancelled = record { before = true; after = true }

abbrev at_work : List Consumer
at_work = record { worker = hand; judge = judge; name = codes "w-0"; stage = fetched message } ∷ []

abbrev last_turns : List Move
last_turns =
    work 0 cancelled
    ∷ work 0 cancelled
    ∷ sweep_stale (pos 60)
    ∷ work 0 cancelled
    ∷ work 0 cancelled
    ∷ []

play_stops_example : stage_at 0 (play last_turns calm (at_work, Fixtures.start)).0 ≡ stopped
play_stops_example =
    play_stops last_turns calm at_work Fixtures.start 0
      ((refl, refl), ((refl, refl), (tt, ((refl, refl), ((refl, refl), tt))))) (omega arith)

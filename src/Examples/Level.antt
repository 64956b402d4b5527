-- ===== src/Examples/Level.antt =====
-- A line at 100 from below, with a band of 20 basis points and the default acceptance of three
-- closes in four.
use crt_master.Base.{
  List, [], arith, false, map, none, ok, pos, refl, some, true, ◌++◌, ◌+◌, ◌-ℤ◌, ◌∷◌, ◌≡◌,
}
use crt_master.Json.{float, int}
use crt_master.Level.{
  Emission, Engine, EventType, State, band_number, beyond, confirm, cross_step, crossed,
  distance_bps, new, observe, on_5s_close, on_price, positive_int, positive_price, pre_side,
  retest_step, settle, up,
}
use crt_master.Level.Invariant.{IsValid}
use crt_master.Level.Checkpoint.{SameLine, restore_state, snapshot_state}
use crt_master.Level.Restore.{restore_state-snapshot_state}
use crt_master.Level.Accept.{restore_state-IsValid}
use crt_master.Level.Protocol.{
  acceptances, crossings, events, follow, phase_of, retests, run-counts, run-follows, tally,
  verdicts,
}
use crt_master.Level.Announce.{observe-announced}
use crt_master.Level.Verdict.{Tick, closed, run-verdict, seen, to_input}
use crt_master.Level.Run.{Input, close, feed, new-run-IsValid, price, run, run-IsValid}
use crt_master.Examples.Fixed.{fixed, fixed_laws}

abbrev line : Engine fixed
line = record {
  level = pos 100_000_000;
  direction = up;
  band_bps = pos 20_000_000;
  accept_required = 3;
  accept_window = 4;
  last_price = none;
  state = State.far;
  cross_active = false;
  accepted = false;
  accepted_departed = false;
  retest_emitted = false;
  closes = [];
}

new-line : new fixed (int (pos 100)) "UP" (int (pos 20)) (int (pos 3)) (int (pos 4)) ≡ ok line
unfolding new positive_price band_number positive_int
new-line = refl

-- The line is crossed and three of four closes stay beyond it.
abbrev story : List (Input fixed)
story =
    price (float (pos 99_000_000)) "t0"
    ∷ price (float (pos 99_900_000)) "t1"
    ∷ price (int (pos 101)) "t2"
    ∷ close (int (pos 101)) "t2"
    ∷ close (float (pos 99_500_000)) "t3"
    ∷ price (int (pos 102)) "t4"
    ∷ close (int (pos 102)) "t4"
    ∷ close (int (pos 103)) "t5"
    ∷ price (int (pos 103)) "t6"
    ∷ price (float (pos 100_100_000)) "t7"
    ∷ []

abbrev told : Engine fixed
told = record line {
  last_price = some (pos 100_100_000);
  state = State.accepted;
  cross_active = true;
  accepted = true;
  accepted_departed = true;
  retest_emitted = true;
  closes = pos 101_000_000 ∷ pos 99_500_000 ∷ pos 102_000_000 ∷ pos 103_000_000 ∷ [];
}

abbrev said : List (Emission fixed)
said =
    record { event = EventType.approach; price = pos 99_900_000; timestamp = "t1" }
    ∷ record { event = EventType.cross_raw; price = pos 101_000_000; timestamp = "t2" }
    ∷ record { event = EventType.accepted; price = pos 103_000_000; timestamp = "t5" }
    ∷ record { event = EventType.retest; price = pos 100_100_000; timestamp = "t7" }
    ∷ []

told-story : run fixed line story ≡ ok (told, said)
unfolding run feed on_price on_5s_close observe confirm cross_step retest_step settle positive_price
    crossed pre_side distance_bps beyond ◌-ℤ◌
told-story = refl

line-IsValid : IsValid fixed line
line-IsValid = ground arith

told-IsValid : IsValid fixed told
told-IsValid = run-IsValid fixed fixed_laws line story line-IsValid told-story

run-follows_example :
    follow (some (phase_of fixed line)) (events fixed said) ≡ some (phase_of fixed told)
run-follows_example = run-follows fixed fixed_laws line story line-IsValid told-story

run-counts_example :
    (tally crossings (events fixed said) + 0 ≡ tally verdicts (events fixed said) + 0)
    × (tally acceptances (events fixed said) + 0 ≡ 1)
    × (tally retests (events fixed said) + 0 ≡ 1)
run-counts_example = run-counts fixed fixed_laws line story line-IsValid told-story

same_line : SameLine fixed line told
same_line = record {
  level = refl;
  direction = refl;
  band_bps = refl;
  accept_required = refl;
  accept_window = refl;
}

restore_state-snapshot_state_example :
    restore_state fixed line (snapshot_state fixed told) ≡ ok told
restore_state-snapshot_state_example =
    restore_state-snapshot_state fixed fixed_laws told line told-IsValid same_line

restore_state-IsValid_example : IsValid fixed told × SameLine fixed line told
restore_state-IsValid_example =
    restore_state-IsValid fixed fixed_laws line (snapshot_state fixed told) line-IsValid
      (restore_state-snapshot_state fixed fixed_laws told line told-IsValid same_line)

observe-announced_example : (observe fixed told (pos 105_000_000) "t8").1 ≡ []
unfolding beyond distance_bps ◌-ℤ◌
observe-announced_example = observe-announced fixed told (pos 105_000_000) "t8" told-IsValid

-- A line that has just been crossed.
abbrev crossed_line : Engine fixed
crossed_line = record line {
  last_price = some (pos 101_000_000);
  state = State.cross_raw;
  cross_active = true;
}

crossed_line-IsValid : IsValid fixed crossed_line
crossed_line-IsValid = ground arith

abbrev ticks : List (Tick fixed)
ticks =
    closed (pos 101_000_000) "t3"
    ∷ closed (pos 99_000_000) "t4"
    ∷ seen (pos 98_000_000) "t5"
    ∷ closed (pos 98_000_000) "t6"
    ∷ []

run-verdict_example :
    (r : Engine fixed × List (Emission fixed)) × (run fixed crossed_line
        (map (to_input fixed) ticks ++ close (float (pos 102_000_000)) "t7" ∷ [])
      ≡ ok r)
    × (r.1 ≡ record { event = EventType.rejected; price = pos 102_000_000; timestamp = "t7" } ∷ [])
    × (r.0.state ≡ State.rejected)
unfolding beyond
run-verdict_example =
    run-verdict fixed crossed_line ticks (pos 102_000_000) "t7" crossed_line-IsValid refl refl
      (ground arith) (refl, refl) refl

new-run-IsValid_example : IsValid fixed told
new-run-IsValid_example =
    new-run-IsValid fixed fixed_laws (int (pos 100)) "UP" (int (pos 20)) (int (pos 3)) (int (pos 4))
      story new-line told-story

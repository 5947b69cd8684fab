-- ===== src/Probe/Tests.antt =====
-- The theorems on the probe, with two requests: the first one makes the discovery call, the second one
-- waits for its answer.
use okdp_control_plane_serve.Base.{true, ◌≡◌, refl}
use okdp_control_plane_serve.Probe.Model.{
  State, answered, closing, returned, is_recent, enter_free, enter, publish, close, move, enters,
  finds, publishes, closes, initial, Reach, start, then_step,
}
use okdp_control_plane_serve.Probe.Invariant.Steps.{Reach-IsSound}
use okdp_control_plane_serve.Probe.Invariant.{IsSound}
use okdp_control_plane_serve.Probe.Progress.{Run, stop, step, CanReturn, can_return, found_stays}

abbrev probing_one : State
probing_one = record {
  shared = (enter initial.shared).1;
  place = move 0 (enter initial.shared).0 initial.place;
}

abbrev waiting_two : State
waiting_two = record {
  shared = (enter probing_one.shared).1;
  place = move 1 (enter probing_one.shared).0 probing_one.place;
}

probing_one-Reach : Reach probing_one
probing_one-Reach = then_step start (enters 0 refl)

waiting_two-Reach : Reach waiting_two
unfolding move
waiting_two-Reach = then_step probing_one-Reach (enters 1 refl)

Reach-IsSound_example : IsSound waiting_two
Reach-IsSound_example = Reach-IsSound waiting_two-Reach

can_return_example : CanReturn waiting_two 1
can_return_example = can_return 1 waiting_two-Reach

abbrev answered_one : State
answered_one = record waiting_two { place = move 0 (answered 0 true) waiting_two.place }

abbrev found_one : State
found_one = record {
  shared = publish true answered_one.shared;
  place = move 0 (closing 0 true) answered_one.place;
}

abbrev closed_one : State
closed_one = record {
  shared = close 0 found_one.shared;
  place = move 0 (returned true) found_one.place;
}

found_one-Reach : Reach found_one
unfolding enter is_recent enter_free move publish
found_one-Reach =
    then_step (then_step waiting_two-Reach (finds 0 0 true refl)) (publishes 0 0 true refl)

then_closes : Run found_one closed_one
unfolding enter move publish close
then_closes = step (closes 0 0 true refl) stop

found_stays_example : closed_one.shared.available ≡ true
unfolding publish
found_stays_example = found_stays found_one-Reach then_closes refl

-- ===== src/Sessions/Examples.antt =====
-- The theorems on sessions at a concrete run: a socket attaches and types, another one watches.
use sandking.Base.{◌≡◌, refl, true, false, List, [], ◌∷◌, ◌++◌, none, some, map, all, ◌==◌, arith}
use sandking.Sessions.Terminal.{open_session, holds}
use sandking.Sessions.Output.{
  Sends, push_output, split_output, push_all, on_data, on_exit, deliver, to_writable, to_readers,
  split_rounds,
}
use sandking.Sessions.Attach.{Role, accept_attachment, stage_attachment, activate}
use sandking.Sessions.Input.{write, resize}
use sandking.Sessions.Steps.{
  Event, Run, done, step, output, exit, attachment, input, resizing, on_output, on_end, on_attach,
  on_activate, on_write, on_resize,
}
use sandking.Sessions.Soundness.{IsSound, open_session-IsSound, Run-IsSound}
use sandking.Sessions.Delivered.{received, is_active}
use sandking.Sessions.Gapless.{IsGapless}
use sandking.Sessions.Served.{disturbs}
use sandking.Sessions.Delivery.{stage_attachment-activate}
use sandking.Sessions.Entered.{IsEntered, inputs, inputs_of, Run-IsEntered}
use sandking.Sessions.Relay.{IsRelayed, on_data-received}
use sandking.Sessions.Exclusive.{asks, Run-exclusive}
use sandking.Sessions.Samples.{
  opened, all_open, attaches, watches, types, enters, resizes, greeting, accepted, replayed,
  prompted, activated, watched, listed, ended,
}

opened-IsSound : IsSound opened
unfolding open_session
opened-IsSound = open_session-IsSound "controller-session-1" "stream-1" "attachment-1" 80 24 refl

abbrev before : List Event
before = output all_open greeting ∷ attachment attaches ∷ []

abbrev between : List Event
between = output all_open (36 ∷ []) ∷ []

abbrev later : List Event
later =
    attachment watches
    ∷ input types
    ∷ input enters
    ∷ resizing true resizes
    ∷ output all_open (97 ∷ 98 ∷ [])
    ∷ exit all_open none false 0
    ∷ []

run_before : Run before opened accepted ((on_data all_open greeting opened).1 ++ ([] ++ []))
unfolding open_session on_data push_all push_output split_output split_rounds deliver to_writable
    to_readers accept_attachment
run_before = step (on_output refl) (step (on_attach {role = Role.writer} {cursor = 0} refl) done)

run_between : Run between accepted prompted ((on_data all_open (36 ∷ []) accepted).1 ++ [])
run_between = step (on_output refl) done

run_later :
    Run later activated.0 ended.0 ([] ++ ([] ++ ([] ++ ([] ++ (listed.1 ++ (ended.1 ++ []))))))
unfolding open_session on_data push_all push_output split_output split_rounds deliver to_writable
    to_readers accept_attachment stage_attachment activate write resize on_exit
run_later = step (on_attach {role = Role.reader} {cursor = 0} refl) (
    step (on_write refl) (
      step (on_write refl)
        (step (on_resize refl) (step (on_output refl) (step (on_end refl refl) done)))))

abbrev live : Sends
live = [] ++ ([] ++ ([] ++ ([] ++ (listed.1 ++ (ended.1 ++ [])))))

accepted-IsSound : IsSound accepted
accepted-IsSound = Run-IsSound run_before opened-IsSound

activates : activate replayed prompted ≡ some activated
unfolding open_session on_data push_all push_output split_output split_rounds deliver to_writable
    to_readers accept_attachment stage_attachment activate
activates = refl

activated-IsSound : IsSound activated.0
activated-IsSound =
    Run-IsSound (step (on_activate activates) done) (Run-IsSound run_between accepted-IsSound)

Run-IsSound_example : IsSound ended.0
Run-IsSound_example = Run-IsSound run_later activated-IsSound

-- The replay, what came in between, and the two frames behind it, of which one is the end.
stage_attachment-activate_example :
    IsGapless replayed.output_cursor ended.0.output_sequence (received 7 (activated.1 ++ live))
unfolding open_session on_data push_all push_output split_output split_rounds deliver to_writable
    to_readers accept_attachment stage_attachment disturbs
stage_attachment-activate_example =
    stage_attachment-activate 7 0 Role.writer accepted prompted activated.0 ended.0 between later
      ((on_data all_open (36 ∷ []) accepted).1 ++ []) activated.1 live accepted-IsSound
      (omega arith) run_between (omega arith) activates run_later refl

Run-IsEntered_example : IsEntered activated.0 ended.0 (inputs later)
Run-IsEntered_example = Run-IsEntered run_later

inputs-later : map (λ r. r.utf8) (inputs later) ≡ "ls" ∷ "\r" ∷ []
unfolding inputs inputs_of
inputs-later = refl

watched-is_active : is_active 8 watched ≡ false
unfolding open_session on_data push_all push_output split_output split_rounds deliver to_writable
    to_readers accept_attachment stage_attachment activate is_active
watched-is_active = refl

activated-is_active : is_active 7 activated.0 ≡ true
unfolding open_session on_data push_all push_output split_output split_rounds deliver to_writable
    to_readers accept_attachment stage_attachment activate is_active
activated-is_active = refl

on_data-received_example :
    IsRelayed (97 ∷ 98 ∷ []) (received 7 (on_data all_open (97 ∷ 98 ∷ []) activated.0).1)
on_data-received_example =
    on_data-received all_open (97 ∷ 98 ∷ []) activated.0 7 activated-IsSound refl
      activated-is_active

activated-holds : holds activated.0.writable_socket 7 ≡ true
unfolding open_session on_data push_all push_output split_output split_rounds deliver to_writable
    to_readers accept_attachment stage_attachment activate
activated-holds = refl

Run-exclusive_example : all (λ r. r.socket == 7) (inputs later) ≡ true
unfolding asks
Run-exclusive_example = Run-exclusive 7 run_later activated-holds refl

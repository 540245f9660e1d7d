-- ===== src/Agent/Commands.antt =====
-- The dispatch of commands (internal/agent/dispatcher.go).
use nodefoundry.Base.{
  ◌≡◌, refl, Option, some, none, if◌then◌else◌, text_eq, GoMap, lookup-insert, Bool-cases, inl, inr,
}
use nodefoundry.Agent.{Handler, CommandMessage, DispatchError, command_failed, register, dispatch}

-- What running one handler reports.
abbrev pub run_handler :
    {Args Error : Type 0} → Handler Args Error → CommandMessage Args → Option (DispatchError Error)
run_handler handler msg = elim (handler.execute msg.args) [
  | none ↦ none
  | some e ↦ some (command_failed msg.command e)
]

-- After a registration, a message with the handler's name runs that handler, in place of any earlier
-- one, and every other message, one that does not parse too, is dispatched as before.
pub dispatch-register :
    {Args Error : Type 0} (handler : Handler Args Error) (handlers : GoMap (Handler Args Error))
    (msg : CommandMessage Args)
    → (dispatch (register handler handlers) (some msg) ≡ (
        if text_eq handler.name msg.command
        then run_handler handler msg
        else dispatch handlers (some msg)))
      × (dispatch (register handler handlers) none ≡ dispatch handlers none)
unfolding dispatch register
dispatch-register handler handlers msg = (
  elim (Bool-cases (text_eq handler.name msg.command)) [
    | inl same ↦ rw (lookup-insert handlers handler.name msg.command handler, same, dispatch) refl
    | inr other ↦ rw (lookup-insert handlers handler.name msg.command handler, other, dispatch) refl
  ],
  refl,
)

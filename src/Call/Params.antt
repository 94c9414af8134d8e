-- ===== src/Call/Params.antt =====
-- tapi_call.c: the setup functions that append the arguments of a method call, and the reports of
-- data logging.
use frameworks_connectivity.Common.{
  ℕ, zero, suc, String, CString, Bool, true, false, ℤ, pos, is_eq, if◌then◌else◌, List, [], ◌∷◌,
  Option, none, some,
}
use frameworks_connectivity.Utils.Modem.{Config}
use frameworks_connectivity.Records.{Payload, Handler, Context}
use frameworks_connectivity.Bus.Logging.{report_over_miwear}
use frameworks_connectivity.Bus.Monad.{
  Arg, string_arg, path_arg, byte_arg, int_arg, array_arg, Setup, M, go, crash, free, Report,
  CallType, Direction, Media, Scenario,
}

-- `snprintf(dst, n + 1, "%s", s)`
abbrev pub truncate : ℕ → String → String
truncate zero s = String.[]
truncate (suc n) String.[] = String.[]
truncate (suc n) (String.◌∷◌ c s) = String.◌∷◌ c (truncate n s)

abbrev pub hide_callerid_string : ℤ → String
hide_callerid_string n =
    if is_eq n (pos 1) then "enabled" else if is_eq n (pos 2) then "disabled" else "default"

-- What `handler->result->data` is, if no pointer on the way is null.
abbrev pub handler_contents : Option Handler → Payload
handler_contents none = Payload.null
handler_contents (some h) = elim h.result [ none ↦ Payload.null | some ar ↦ ar.contents ]

abbrev call_param_args : Payload → Setup
call_param_args (Payload.call_param p number hide) w =
    (string_arg (some number) ∷ string_arg (some (hide_callerid_string hide)) ∷ [], free p w)
call_param_args _ w = ([], w)

-- `call_param_append`, which frees its parameter.
abbrev pub call_param_append : Option Handler → Setup
call_param_append h w = call_param_args (handler_contents h) w

abbrev dtmf_param_args : Payload → Setup
dtmf_param_args (Payload.dtmf_param p digit flag) w = (byte_arg digit ∷ int_arg flag ∷ [], free p w)
dtmf_param_args _ w = ([], w)

-- `dtmf_param_append`, which frees its parameter.
abbrev pub dtmf_param_append : Option Handler → Setup
dtmf_param_append h w = dtmf_param_args (handler_contents h) w

abbrev pub answer_hangup_param_append : CString → Setup
answer_hangup_param_append none w = ([], w)
answer_hangup_param_append (some path) w = (path_arg (some path) ∷ [], w)

-- `path` and `number` of a `call_deflect_param`.
abbrev pub deflect_param_append : CString → CString → Setup
deflect_param_append path number w = (path_arg path ∷ string_arg number ∷ [], w)

abbrev separate_param_args : Payload → List Arg
separate_param_args (Payload.text s) = path_arg s ∷ []
separate_param_args _ = []

-- It looks at no pointer on the way to `handler->result->data`.
abbrev pub separate_param_append : Option Handler → Setup
separate_param_append h w = (separate_param_args (handler_contents h), w)

abbrev pub tone_param_append : CString → Setup
tone_param_append tones w = (string_arg tones ∷ [], w)

-- The array of a conference: `length` is the number of its entries.
abbrev pub conference_param_append : List CString → Setup
conference_param_append participants w = (array_arg participants ∷ [], w)

module _ (cfg : Config) where
  -- `report_data_logging_for_call`. Over miwear the context is read before any check of it.
  unfoldable pub report_data_logging_for_call :
      Option Context → CallType → Direction → Media → Scenario → String → M (Unit {0})
  unfolding report_over_miwear
  report_data_logging_for_call ctx type direction media scenario reason w =
      let line : Report = Report.of_call (record {
        type = type;
        direction = direction;
        media = media;
        scenario = scenario;
        reason = reason;
      }) in
      if cfg.log_over_miwear
      then elim ctx [ none ↦ crash | some c ↦ report_over_miwear c.logging_over_miwear_cb line w ]
      else go tt (record w { reports = line ∷ w.reports })

  unfoldable pub report_data_logging_for_call_if :
      Bool → Option Context → CallType → Direction → Media → Scenario → String → M (Unit {0})
  unfolding report_data_logging_for_call
  report_data_logging_for_call_if true ctx type direction media scenario reason w =
      report_data_logging_for_call ctx type direction media scenario reason w
  report_data_logging_for_call_if false ctx type direction media scenario reason w = go tt w

-- ===== src/Phonebook/Protocol.antt =====
-- What each request about the phone book puts on the bus, as a table, and that the requests keep to it.
use frameworks_connectivity.Common.{
  ℤ, String, CString, Bool, true, refl, ◌&&◌, List, [], ◌∷◌, Option,
}
use frameworks_connectivity.Utils.Modem.{Config}
use frameworks_connectivity.Records.{Code, Callback, ProxyType, Context}
use frameworks_connectivity.Bus.Monad.{
  World, M, Arg, string_arg, int_arg, PhonebookReply, phonebook_reply, load_adn_entries_cb,
  load_fdn_entries_cb, insert_fdn_record_cb, phonebook_method_call_complete,
}
use frameworks_connectivity.Bus.Issued.{Succeeds}
use frameworks_connectivity.Bus.Wire.{answered, Row, Sent}
use frameworks_connectivity.Bus.Guards.{with_proxy}
use frameworks_connectivity.Bus.SentRules.{IsGuard, with_proxy-IsGuard}
use frameworks_connectivity.Bus.WholeRules.{result-Sent, owned-Sent}
use frameworks_connectivity.Manager.Requests.{is_given, is_positive}
use frameworks_connectivity.Phonebook.Requests

-- The requests that tapi_phonebook.c makes.
pub data PhonebookRequest : Type 0 where
  load_adn_entries load_fdn_entries : PhonebookRequest
  insert_fdn_entry : CString → CString → CString → PhonebookRequest
  delete_fdn_entry : ℤ → CString → PhonebookRequest
  update_fdn_entry : ℤ → CString → CString → CString → PhonebookRequest

module _ (slot_id event : ℤ) (cb : Callback) where
  abbrev ask : Bool → String → List Arg → PhonebookReply → Row
  ask accepts member args reply = record {
    type = ProxyType.phonebook;
    accepts = accepts;
    wire = answered member args (phonebook_reply reply) event slot_id cb;
  }

  abbrev pub row : PhonebookRequest → Row
  row PhonebookRequest.load_adn_entries = ask true "Import" [] load_adn_entries_cb
  row PhonebookRequest.load_fdn_entries = ask true "ImportFdn" [] load_fdn_entries_cb
  row (PhonebookRequest.insert_fdn_entry name number pin2) =
      ask (is_given name && (is_given number && is_given pin2)) "InsertFdn"
        (string_arg name ∷ string_arg number ∷ string_arg pin2 ∷ []) insert_fdn_record_cb
  row (PhonebookRequest.delete_fdn_entry fdn_idx pin2) =
      ask (is_positive fdn_idx && is_given pin2) "DeleteFdn"
        (string_arg pin2 ∷ int_arg fdn_idx ∷ []) phonebook_method_call_complete
  row (PhonebookRequest.update_fdn_entry fdn_idx new_name new_number pin2) =
      ask (is_positive fdn_idx && (is_given new_name && (is_given new_number && is_given pin2)))
        "UpdateFdn"
        (string_arg new_name ∷ string_arg new_number ∷ string_arg pin2 ∷ int_arg fdn_idx ∷ [])
        phonebook_method_call_complete

module _ (cfg : Config) (ctx : Option Context) (slot_id event : ℤ) (cb : Callback) where
  unfoldable pub send : PhonebookRequest → M Code
  send PhonebookRequest.load_adn_entries = Requests.load_adn_entries cfg ctx slot_id event cb
  send PhonebookRequest.load_fdn_entries = Requests.load_fdn_entries cfg ctx slot_id event cb
  send (PhonebookRequest.insert_fdn_entry name number pin2) =
      Requests.insert_fdn_entry cfg ctx slot_id event cb name number pin2
  send (PhonebookRequest.delete_fdn_entry fdn_idx pin2) =
      Requests.delete_fdn_entry cfg ctx slot_id event cb fdn_idx pin2
  send (PhonebookRequest.update_fdn_entry fdn_idx new_name new_number pin2) =
      Requests.update_fdn_entry cfg ctx slot_id event cb fdn_idx new_name new_number pin2

  any : IsGuard cfg ctx slot_id (with_proxy cfg ctx slot_id)
  any = with_proxy-IsGuard cfg ctx slot_id

  pub phonebook-Sent :
      (r : PhonebookRequest) (w : World)
      → Succeeds (Sent cfg ctx slot_id (row slot_id event cb r) w.pending) (send r w)
  unfolding send Requests.load_adn_entries Requests.load_fdn_entries Requests.fdn_request
      Requests.insert_fdn_entry Requests.delete_fdn_entry Requests.update_fdn_entry
  phonebook-Sent PhonebookRequest.load_adn_entries w =
      result-Sent cfg ctx slot_id _ any _ w _ _ cb (λ h w'. refl) (λ a h w'. refl) λ a h. refl
  phonebook-Sent PhonebookRequest.load_fdn_entries w =
      result-Sent cfg ctx slot_id _ any _ w _ _ cb (λ h w'. refl) (λ a h w'. refl) λ a h. refl
  phonebook-Sent (PhonebookRequest.insert_fdn_entry name number pin2) w =
      owned-Sent cfg ctx slot_id _ any _ w _ _ cb (λ a d h w'. refl) (λ a d h w'. refl)
        λ a d h. refl
  phonebook-Sent (PhonebookRequest.delete_fdn_entry fdn_idx pin2) w =
      owned-Sent cfg ctx slot_id _ any _ w _ _ cb (λ a d h w'. refl) (λ a d h w'. refl)
        λ a d h. refl
  phonebook-Sent (PhonebookRequest.update_fdn_entry fdn_idx new_name new_number pin2) w =
      owned-Sent cfg ctx slot_id _ any _ w _ _ cb (λ a d h w'. refl) (λ a d h w'. refl)
        λ a d h. refl

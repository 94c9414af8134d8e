-- ===== src/Phonebook/Requests.antt =====
-- tapi_phonebook.c: the requests about entries of the phone book.
use frameworks_connectivity.Common.{
  String, CString, Bool, true, ℤ, pos, ◌&&◌, List, [], ◌∷◌, ◌++◌, map, Option, none, some,
}
use frameworks_connectivity.Utils.Modem.{Config}
use frameworks_connectivity.Records.{Code, Payload, Handler, Callback, ProxyType, Context}
use frameworks_connectivity.Bus.Monad.{
  M, handler_release, Setup, Arg, string_arg, int_arg, PhonebookReply, phonebook_reply,
  load_adn_entries_cb, load_fdn_entries_cb, insert_fdn_record_cb, phonebook_method_call_complete,
  releasing,
}
use frameworks_connectivity.Bus.Request.{call_with_owned, call_with_result}
use frameworks_connectivity.Bus.Guards.{with_proxy}
use frameworks_connectivity.Call.Params.{handler_contents}
use frameworks_connectivity.Manager.Requests.{is_given, is_positive, result_for}
use frameworks_connectivity.Ss.Requests.{no_args}

abbrev index_args : Option ℤ → List Arg
index_args none = []
index_args (some fdn_idx) = int_arg fdn_idx ∷ []

abbrev fdn_args : Payload → List Arg
fdn_args (Payload.fdn_param p fdn_idx texts) = map string_arg texts ++ index_args fdn_idx
fdn_args _ = []

-- `insert_fdn_record_append`, `delete_fdn_record_append` and `update_fdn_record_append`, of the
-- texts that the parameter was filled with, in the order in which they are appended, and the index.
abbrev pub fdn_append : Handler → Setup
fdn_append h w = (fdn_args (handler_contents (some h)), w)

module _ (cfg : Config) (ctx : Option Context) (slot_id event_id : ℤ) (p_handle : Callback) where
  unfoldable pub load_adn_entries : M Code
  load_adn_entries = with_proxy cfg ctx slot_id true ProxyType.phonebook λ proxy.
      call_with_result (result_for event_id slot_id) p_handle proxy "Import" no_args
        (phonebook_reply load_adn_entries_cb)
        (λ handler. releasing (handler_release (some handler)))

  unfoldable pub load_fdn_entries : M Code
  load_fdn_entries = with_proxy cfg ctx slot_id true ProxyType.phonebook λ proxy.
      call_with_result
        (λ a. record (result_for event_id slot_id a) {
          arg2 = some (pos 0);
          contents = Payload.null;
        })
        p_handle proxy "ImportFdn" no_args (phonebook_reply load_fdn_entries_cb)
        (λ handler. releasing (handler_release (some handler)))

  -- The checks, and then the call with its parameter. The source repeats these lines in each request.
  unfoldable pub fdn_request : Bool → String → Option ℤ → List CString → PhonebookReply → M Code
  fdn_request allowed member fdn_idx texts reply =
      with_proxy cfg ctx slot_id allowed ProxyType.phonebook λ proxy.
        call_with_owned
          (λ a p. record (result_for event_id slot_id a) {
            contents = Payload.fdn_param p fdn_idx texts;
          })
          p_handle proxy member fdn_append (phonebook_reply reply)

  unfoldable pub insert_fdn_entry : CString → CString → CString → M Code
  insert_fdn_entry name number pin2 =
      fdn_request (is_given name && (is_given number && is_given pin2)) "InsertFdn" none
        (name ∷ number ∷ pin2 ∷ []) insert_fdn_record_cb

  unfoldable pub delete_fdn_entry : ℤ → CString → M Code
  delete_fdn_entry fdn_idx pin2 =
      fdn_request (is_positive fdn_idx && is_given pin2) "DeleteFdn" (some fdn_idx) (pin2 ∷ [])
        phonebook_method_call_complete

  unfoldable pub update_fdn_entry : ℤ → CString → CString → CString → M Code
  update_fdn_entry fdn_idx new_name new_number pin2 =
      fdn_request
        (is_positive fdn_idx && (is_given new_name && (is_given new_number && is_given pin2)))
        "UpdateFdn" (some fdn_idx) (new_name ∷ new_number ∷ pin2 ∷ [])
        phonebook_method_call_complete

-- ===== src/Call/ValueTests.antt =====
-- Concrete messages, and what the theorems say of them.
use frameworks_connectivity.Common.{
  ◌<◌, ◌≡◌, refl, String, pos, true, false, List, [], ◌∷◌, CString, none, some, length, take, arith,
}
use frameworks_connectivity.Utils.CallNames.{CallStatus, call_status_from_string}
use frameworks_connectivity.Records.{
  ret, ok, error, AsyncResult, Payload, CallInfo, zero_call, max_call_list_count,
  max_conference_participant_count,
}
use frameworks_connectivity.Bus.Message.{
  Iter, end, item, string, object_path, array, struct, Message, recurse,
}
use frameworks_connectivity.Bus.Monad.{
  World, Outcome, fresh_result, dial_call_callback, call_list_query_complete,
}
use frameworks_connectivity.Call.Decode.{
  call_strcpy, property_of, assign, decode_properties, decode_voice_call_info, decode_struct,
  decode_calls, merge_paths,
}
use frameworks_connectivity.Call.DecodeBounds.{Fits, decode_voice_call_info-Fits}
use frameworks_connectivity.Call.DecodeRoundTrip.{encode_call, decode_voice_call_info-encode_call}
use frameworks_connectivity.Call.ListBounds.{
  call_entries, Decoded, call_structs, decode_calls-Decoded, decode_calls_overrun, leading_paths,
  merge_paths-take,
}
use frameworks_connectivity.Bus.Client.{called}
use frameworks_connectivity.Call.Reply.{run_reply, on_dial, on_merge, on_call_list}
use frameworks_connectivity.Bus.Answers.{client, Answers}
use frameworks_connectivity.Call.ReplyResults.{run_reply-Answers, run_reply-fault}
use frameworks_connectivity.Call.ReplyValues.{
  LeavesStatus, on_call_list-ListsCalls, on_merge-ListsPaths, on_dial-LeavesStatus,
}

abbrev incoming_call : CallInfo
incoming_call = record zero_call {
  call_id = "/phonesim/voicecall01";
  state = CallStatus.incoming;
  line_identification = "+123456789";
}

incoming-Fits : Fits incoming_call
incoming-Fits = record {
  call_id = ground arith;
  line_identification = ground arith;
  incoming_line = ground arith;
  name = ground arith;
  start_time = ground arith;
  info = ground arith;
}

abbrev more : Iter → Iter
more i = item (struct (encode_call incoming_call)) i

abbrev two_calls : Iter
two_calls = more (more end)

abbrev eleven_calls : Iter
eleven_calls = more (more (more (more (more (more (more (more (more two_calls))))))))

decode_voice_call_info-encode_call_example :
    decode_voice_call_info (encode_call incoming_call) ≡ some (ret 1, incoming_call)
decode_voice_call_info-encode_call_example =
    decode_voice_call_info-encode_call incoming_call incoming-Fits

decode_voice_call_info-Fits_example : Fits incoming_call
decode_voice_call_info-Fits_example =
    decode_voice_call_info-Fits (encode_call incoming_call) (ret 1) incoming_call
      decode_voice_call_info-encode_call_example

two_decoded : decode_calls two_calls [] ≡ some (incoming_call ∷ incoming_call ∷ [])
unfolding decode_calls decode_struct decode_voice_call_info decode_properties assign property_of
    call_strcpy call_status_from_string
two_decoded = refl

decode_calls-Decoded_example :
    Decoded (call_structs two_calls) (incoming_call ∷ incoming_call ∷ [])
    × (length (incoming_call ∷ incoming_call ∷ []) ≡ length (call_structs two_calls))
decode_calls-Decoded_example =
    decode_calls-Decoded two_calls (incoming_call ∷ incoming_call ∷ []) two_decoded

eleven_over : max_call_list_count < call_entries eleven_calls
unfolding call_entries
eleven_over = omega arith

decode_calls_overrun_example : decode_calls eleven_calls [] ≡ none
decode_calls_overrun_example = decode_calls_overrun eleven_calls eleven_over

abbrev seven_paths : Iter
seven_paths = item (object_path "/1") (
    item (object_path "/2") (
      item (object_path "/3") (
        item (object_path "/4")
          (item (object_path "/5") (item (object_path "/6") (item (object_path "/7") end))))))

merge_paths-take_example :
    merge_paths 0 seven_paths ≡ take max_conference_participant_count (leading_paths seven_paths)
merge_paths-take_example = merge_paths-take seven_paths

abbrev message : CString → String → Iter → Message
message fault signature args = record {
  fault = fault;
  interface = "org.ofono.VoiceCallManager";
  member = "CallChanged";
  signature = signature;
  args = args;
}

abbrev result : AsyncResult
result = record (fresh_result 8) { msg_id = some (pos 21); arg1 = some (pos 0) }

abbrev answering_world : World
answering_world = record {
  mallocs = λ n. true;
  outcomes = λ n. Outcome.sent;
  writes = λ n. true;
  watch_ids = λ n. 5;
  next = 10;
  live = [];
  bad_free = false;
  pending = [];
  watches = [];
  properties = [];
  reports = [];
}

run_reply-Answers_example :
    Answers 4 result
      (run_reply call_list_query_complete
        (some (client 9 4 result (message none "a(oa{sv})" (item (array two_calls) end))))
        (message none "a(oa{sv})" (item (array two_calls) end))
        answering_world).0
run_reply-Answers_example =
    run_reply-Answers 9 4 result (message none "a(oa{sv})" (item (array two_calls) end))
      call_list_query_complete answering_world refl

run_reply-fault_example :
    (run_reply dial_call_callback
      (some (client 9 4 result (message (some "org.ofono.Error.Failed") "" end)))
      (message (some "org.ofono.Error.Failed") "" end)
      answering_world).0
    ≡ called 4 (record result { status = some error })
run_reply-fault_example =
    run_reply-fault 9 4 result (message (some "org.ofono.Error.Failed") "" end) dial_call_callback
      answering_world "org.ofono.Error.Failed" refl refl

abbrev calls_message : Message
calls_message = message none "a(oa{sv})" (item (array two_calls) end)

abbrev calls_result : AsyncResult
calls_result = record result {
  arg2 = some (pos 2);
  status = some ok;
  contents = Payload.calls (incoming_call ∷ incoming_call ∷ []);
}

calls_called :
    on_call_list (some (client 9 4 result calls_message)) calls_message ≡ called 4 calls_result
unfolding on_call_list decode_calls decode_struct decode_voice_call_info decode_properties assign
    property_of call_strcpy call_status_from_string
calls_called = refl

on_call_list-ListsCalls_example :
    (i : Iter) × (l : List CallInfo) × (recurse calls_message.args ≡ some i)
    × (calls_result.contents ≡ Payload.calls l)
    × (calls_result.arg2 ≡ some (pos (length l)))
    × Decoded (call_structs i) l
on_call_list-ListsCalls_example =
    on_call_list-ListsCalls 9 4 result calls_message refl 4 calls_result calls_called refl

abbrev paths_message : Message
paths_message = message none "ao" (item (array seven_paths) end)

abbrev six_paths : List String
six_paths = "/1" ∷ "/2" ∷ "/3" ∷ "/4" ∷ "/5" ∷ "/6" ∷ []

abbrev paths_result : AsyncResult
paths_result = record result {
  arg2 = some (pos 6);
  status = some ok;
  contents = Payload.paths six_paths;
}

paths_called :
    on_merge (some (client 9 4 result paths_message)) paths_message ≡ called 4 paths_result
unfolding on_merge merge_paths
paths_called = refl

on_merge-ListsPaths_example :
    (i : Iter) × (recurse paths_message.args ≡ some i)
    × (paths_result.contents
        ≡ Payload.paths (take max_conference_participant_count (leading_paths i)))
    × (paths_result.arg2
        ≡ some (pos (length (take max_conference_participant_count (leading_paths i)))))
on_merge-ListsPaths_example =
    on_merge-ListsPaths 9 4 result paths_message refl 4 paths_result paths_called refl

abbrev odd_message : Message
odd_message = message none "s" (item (string "voicecall01") end)

on_dial-LeavesStatus_example :
    LeavesStatus odd_message (on_dial (some (client 9 4 result odd_message)) odd_message)
on_dial-LeavesStatus_example = on_dial-LeavesStatus 9 4 result odd_message refl

-- ===== src/Provider/Admission/Samples.antt =====
-- A connection with room for two subscriptions.
use mission_control_edge.Common.{◌≡◌, refl, false, List, [], ◌∷◌, arith, bytes, err}
use mission_control_edge.Common.Assoc.{lookup, insert, remove}
use mission_control_edge.Protocol.Error.{resource_exhausted}
use mission_control_edge.Protocol.Identity.{validate_native_id}
use mission_control_edge.Provider.RpcError.{sdk_error}
use mission_control_edge.Provider.Admission.{
  ServerConnection, begin_subscription, can_reserve, update, cleanup, clean_once,
  release_subscription,
}
use mission_control_edge.Provider.Admission.Prepare.{
  event_subscription, prepare, check_prepare, subscription_id_of, register,
}
use mission_control_edge.Provider.Admission.Account.{
  Operation, begin, answer, clean, perform, perform_all, live, Accounted, perform_all-Accounted,
}

abbrev empty : ServerConnection
empty = record {
  admissions = [];
  next = 0;
  subscription_cancels = [];
  terminal_streams = [];
  subscriptions = 0;
  closing = false;
  replay_supported = false;
  maximum_chunk = 4096;
}

-- The second answer takes the identifier of the first, and its admission is cleaned up twice.
abbrev operations : List Operation
operations =
    begin
    ∷ begin
    ∷ answer 0 (event_subscription 0 (bytes "s"))
    ∷ answer 1 (event_subscription 0 (bytes "s"))
    ∷ clean 1
    ∷ begin
    ∷ []

empty-Accounted : Accounted 2 empty
unfolding Accounted live
empty-Accounted = (refl, omega arith)

after_operations : (perform_all 2 empty operations).subscriptions ≡ 2
unfolding perform_all perform begin_subscription can_reserve prepare check_prepare
    subscription_id_of register update cleanup clean_once release_subscription validate_native_id
    lookup insert remove
after_operations = refl

full_refused :
    (begin_subscription 2 (perform_all 2 empty operations)).1 ≡ err (sdk_error resource_exhausted)
unfolding perform_all perform begin_subscription can_reserve prepare check_prepare
    subscription_id_of register update cleanup clean_once release_subscription validate_native_id
    lookup insert remove
full_refused = refl

perform_all-Accounted_example : Accounted 2 (perform_all 2 empty operations)
perform_all-Accounted_example = perform_all-Accounted 2 empty operations empty-Accounted

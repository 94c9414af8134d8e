-- ===== src/Sim/Getters.antt =====
-- tapi_sim.c: the functions that read a property of the SIM card.
use frameworks_connectivity.Common.{String, Bool, true, false, ℤ, Option, none, some, if◌then◌else◌}
use frameworks_connectivity.Utils.Modem.{Config, is_valid_slotid, slot_index}
use frameworks_connectivity.Records.{einval, eagain, ProxyType, Context}
use frameworks_connectivity.Bus.Property.{
  Properties, Answer, refuse, of_proxy, read_property, text_of, map_int, is_nonzero,
}
use frameworks_connectivity.Bus.Message.{Value}
use frameworks_connectivity.Bus.Found.{
  found, Follows, text_value, map_text-Follows, refuse-Follows, undefined-Follows, of_proxy-Follows,
  checked-Follows,
}

-- `has_icc_card = false; tapi_sim_has_icc_card(context, slot_id, &has_icc_card);`, where the result
-- is not looked at; `none` is undefined behaviour.
abbrev card_of : Answer Bool → Option Bool
card_of none = none
card_of (some (code, none)) = some false
card_of (some (code, some b)) = some b

abbrev where_inserted : {A : Type 0} → Option Bool → Answer A → Answer A
where_inserted none answer = none
where_inserted (some b) answer = if b then answer else refuse einval

module _ (cfg : Config) (props : Properties) (ctx : Option Context) (slot_id : ℤ) where
  unfoldable pub has_icc_card : Answer Bool
  has_icc_card =
      read_property cfg props ctx slot_id true ProxyType.sim "Present" einval (map_int is_nonzero)

  unfoldable pub get_sim_state : Answer ℤ
  get_sim_state =
      read_property cfg props ctx slot_id true ProxyType.sim "SimState" einval (map_int λ n. n)

  unfoldable pub card_inserted : Option Bool
  card_inserted = card_of has_icc_card

  -- The text of a property that is read where there is a card. The source repeats these lines in
  -- each function.
  unfoldable pub read_with_card : String → Answer String
  read_with_card name = elim ctx [
    | none ↦ refuse einval
    | some c ↦
        if is_valid_slotid cfg slot_id
        then if c.client_ready
          then where_inserted card_inserted (
              of_proxy cfg props (c.dbus_proxy (slot_index slot_id) ProxyType.sim) name einval
                text_of)
          else refuse eagain
        else refuse einval
  ]

  unfoldable pub get_sim_iccid : Answer String
  get_sim_iccid = read_with_card "CardIdentifier"

  unfoldable pub get_sim_operator_name : Answer String
  get_sim_operator_name = read_with_card "ServiceProviderName"

  unfoldable pub get_subscriber_id : Answer String
  get_subscriber_id = read_with_card "SubscriberIdentity"

where_inserted-Follows :
    {A : Type 0} (value : Value → Option A) (o : Option Bool) (v : Option Value) (a : Answer A)
    → Follows value true v a
    → Follows value true v (where_inserted o a)
unfolding Follows
where_inserted-Follows value none v a h = undefined-Follows value v
where_inserted-Follows value (some true) v a h = h
where_inserted-Follows value (some false) v a h = refuse-Follows value v einval

pub read_with_card-Follows :
    (cfg : Config) (props : Properties) (ctx : Option Context) (slot_id : ℤ) (name : String)
    → Follows
        (text_value λ s. s)
        true
        (found cfg props ctx slot_id ProxyType.sim name)
        (read_with_card cfg props ctx slot_id name)
unfolding read_with_card Follows
read_with_card-Follows cfg props none slot_id name = tt
read_with_card-Follows cfg props (some c) slot_id name =
    checked-Follows _ (is_valid_slotid cfg slot_id) c.client_ready _ _ (
      where_inserted-Follows _ (card_inserted cfg props (some c) slot_id) _ _ (
        of_proxy-Follows cfg props name einval text_of (text_value λ s. s) true
          (map_text-Follows (λ s. s) true) (c.dbus_proxy (slot_index slot_id) ProxyType.sim)))

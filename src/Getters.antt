-- ===== src/Getters.antt =====
-- The functions of tapi_manager.c, tapi_network.c, tapi_data.c, tapi_ims.c and tapi_sim.c that read a property
-- into an `out` parameter, under one name.
mod Tests
use frameworks_connectivity.Common.{Bool, true, false, ℤ, Option, none, some, ◌&&◌}
use frameworks_connectivity.Utils.Modem.{Config}
use frameworks_connectivity.Records.{eio, ProxyType, Context}
use frameworks_connectivity.Bus.Message.{Value, end, item, get_int}
use frameworks_connectivity.Bus.Property.{
  Properties, Answer, Writes, map_int, map_int-Writes, read_property, read_property-Writes,
  is_nonzero,
}
use frameworks_connectivity.Bus.Found.{
  found, Follows, Follows-conditional, map_int-Follows, map_text-Follows, read_property-Follows,
}
use frameworks_connectivity.GetterTable.{Getter, Out, row, value, is_conditional}
use frameworks_connectivity.Manager
use frameworks_connectivity.Network
use frameworks_connectivity.Data
use frameworks_connectivity.Ims
use frameworks_connectivity.Sim

module _ (cfg : Config) (props : Properties) (ctx : Option Context) (slot_id : ℤ) where
  unfoldable pub read : (g : Getter) → Answer (Out g)
  read Getter.get_pref_net_mode = Manager.Getters.get_pref_net_mode cfg props ctx slot_id
  read Getter.get_imei = Manager.Getters.get_imei cfg props ctx slot_id
  read Getter.get_imeisv = Manager.Getters.get_imeisv cfg props ctx slot_id
  read Getter.get_modem_manufacturer = Manager.Getters.get_modem_manufacturer cfg props ctx slot_id
  read Getter.get_modem_model = Manager.Getters.get_modem_model cfg props ctx slot_id
  read Getter.get_modem_revision = Manager.Getters.get_modem_revision cfg props ctx slot_id
  read Getter.get_phone_state = Manager.Getters.get_phone_state cfg props ctx slot_id
  read Getter.get_radio_power = Manager.Getters.get_radio_power cfg props ctx slot_id
  read Getter.get_radio_state = Manager.Getters.get_radio_state cfg props ctx slot_id
  read Getter.get_modem_status_sync = Manager.Getters.get_modem_status_sync cfg props ctx slot_id
  read Getter.is_voice_registered = Network.Getters.is_voice_registered cfg props ctx slot_id
  read Getter.is_voice_emergency_only =
      Network.Getters.is_voice_emergency_only cfg props ctx slot_id
  read Getter.get_voice_network_type = Network.Getters.get_voice_network_type cfg props ctx slot_id
  read Getter.is_voice_roaming = Network.Getters.is_voice_roaming cfg props ctx slot_id
  read Getter.get_mcc = Network.Getters.get_mcc cfg props ctx slot_id
  read Getter.get_mnc = Network.Getters.get_mnc cfg props ctx slot_id
  read Getter.get_display_name = Network.Getters.get_display_name cfg props ctx slot_id
  read Getter.is_data_registered = Data.Getters.is_registered cfg props ctx slot_id
  read Getter.is_data_emergency_only = Data.Getters.is_data_emergency_only cfg props ctx slot_id
  read Getter.get_data_network_type = Data.Getters.get_network_type cfg props ctx slot_id
  read Getter.is_data_roaming = Data.Getters.is_data_roaming cfg props ctx slot_id
  read Getter.get_preferred_apn = Data.Getters.get_preferred_apn cfg props ctx slot_id
  read Getter.is_ims_registered = Ims.Getters.is_registered cfg props ctx slot_id
  read Getter.get_subscriber_uri_number =
      Ims.Getters.get_subscriber_uri_number cfg props ctx slot_id
  read Getter.get_ims_enabled = Ims.Getters.get_enabled cfg props ctx slot_id
  read Getter.is_volte_available = Ims.Getters.is_volte_available cfg props ctx slot_id
  read Getter.has_icc_card = Sim.Getters.has_icc_card cfg props ctx slot_id
  read Getter.get_sim_state = Sim.Getters.get_sim_state cfg props ctx slot_id
  read Getter.get_sim_iccid = Sim.Getters.get_sim_iccid cfg props ctx slot_id
  read Getter.get_sim_operator_name = Sim.Getters.get_sim_operator_name cfg props ctx slot_id
  read Getter.get_subscriber_id = Sim.Getters.get_subscriber_id cfg props ctx slot_id

  volte-Writes :
      (v : Value)
      → Writes (elim (get_int (item v end)) as (λ _. Answer Bool) [
        | none ↦ none
        | some reg ↦
            read_property cfg props ctx slot_id true ProxyType.ims "VoiceCapable" eio
              (map_int λ cap. is_nonzero reg && is_nonzero cap)
      ])
  unfolding Writes
  volte-Writes v = after (get_int (item v end))
    where
      after :
          (o : Option ℤ)
          → Writes (elim o as (λ _. Answer Bool) [
            | none ↦ none
            | some reg ↦
                read_property cfg props ctx slot_id true ProxyType.ims "VoiceCapable" eio
                  (map_int λ cap. is_nonzero reg && is_nonzero cap)
          ])
      after none = tt
      after (some reg) = read_property-Writes cfg props _ _ _ (map_int-Writes _) ctx slot_id _ _

  -- Each function but that for the MSISDN, by the property of its row. Where the slot is not valid, the
  -- client not ready, or the slot's proxy or its property missing, it returns an error and writes
  -- nothing. Where the property is there, it returns 0 and writes what the table of values makes of
  -- it, or is undefined, exactly where the value is of another type than it is read at. Four
  -- functions need more: the one for VoLTE a second property, and three of the SIM card that the card
  -- is there. These may return an error too, writing nothing, although the property is there, and may
  -- be undefined whether it is or not; what these four write is not said.
  pub read-Follows :
      (g : Getter)
      → Follows
          (value g)
          (is_conditional g)
          (found cfg props ctx slot_id (row g).0 (row g).1)
          (read g)
  unfolding read Manager.Getters.get_pref_net_mode Manager.Getters.get_imei
      Manager.Getters.get_imeisv Manager.Getters.get_modem_manufacturer
      Manager.Getters.get_modem_model Manager.Getters.get_modem_revision
      Manager.Getters.get_phone_state Manager.Getters.get_radio_power
      Manager.Getters.get_radio_state Manager.Getters.get_modem_status_sync
      Network.Getters.is_voice_registered Network.Getters.is_voice_emergency_only
      Network.Getters.get_voice_network_type Network.Getters.is_voice_roaming
      Network.Getters.get_mcc Network.Getters.get_mnc Network.Getters.get_display_name
      Data.Getters.is_registered Data.Getters.is_data_emergency_only Data.Getters.get_network_type
      Data.Getters.is_data_roaming Data.Getters.get_preferred_apn Ims.Getters.is_registered
      Ims.Getters.get_subscriber_uri_number Ims.Getters.get_enabled Ims.Getters.is_volte_available
      Sim.Getters.has_icc_card Sim.Getters.get_sim_state Sim.Getters.get_sim_iccid
      Sim.Getters.get_sim_operator_name Sim.Getters.get_subscriber_id
  read-Follows Getter.get_pref_net_mode =
      read_property-Follows cfg props _ _ _ _ false (map_text-Follows _ false) ctx slot_id _
  read-Follows Getter.get_imei =
      read_property-Follows cfg props _ _ _ _ false (map_text-Follows (λ s. s) false) ctx slot_id _
  read-Follows Getter.get_imeisv =
      read_property-Follows cfg props _ _ _ _ false (map_text-Follows (λ s. s) false) ctx slot_id _
  read-Follows Getter.get_modem_manufacturer =
      read_property-Follows cfg props _ _ _ _ false (map_text-Follows (λ s. s) false) ctx slot_id _
  read-Follows Getter.get_modem_model =
      read_property-Follows cfg props _ _ _ _ false (map_text-Follows (λ s. s) false) ctx slot_id _
  read-Follows Getter.get_modem_revision =
      read_property-Follows cfg props _ _ _ _ false (map_text-Follows (λ s. s) false) ctx slot_id _
  read-Follows Getter.get_phone_state =
      read_property-Follows cfg props _ _ _ _ false (map_int-Follows _ false) ctx slot_id _
  read-Follows Getter.get_radio_power =
      read_property-Follows cfg props _ _ _ _ false (map_int-Follows _ false) ctx slot_id _
  read-Follows Getter.get_radio_state =
      read_property-Follows cfg props _ _ _ _ false (map_int-Follows _ false) ctx slot_id _
  read-Follows Getter.get_modem_status_sync =
      read_property-Follows cfg props _ _ _ _ false (map_int-Follows _ false) ctx slot_id _
  read-Follows Getter.is_voice_registered =
      read_property-Follows cfg props _ _ _ _ false (map_text-Follows _ false) ctx slot_id _
  read-Follows Getter.is_voice_emergency_only =
      read_property-Follows cfg props _ _ _ _ false (map_text-Follows _ false) ctx slot_id _
  read-Follows Getter.get_voice_network_type =
      read_property-Follows cfg props _ _ _ _ false (map_int-Follows _ false) ctx slot_id _
  read-Follows Getter.is_voice_roaming =
      read_property-Follows cfg props _ _ _ _ false (map_text-Follows _ false) ctx slot_id _
  read-Follows Getter.get_mcc =
      read_property-Follows cfg props _ _ _ _ false (map_text-Follows (λ s. s) false) ctx slot_id _
  read-Follows Getter.get_mnc =
      read_property-Follows cfg props _ _ _ _ false (map_text-Follows (λ s. s) false) ctx slot_id _
  read-Follows Getter.get_display_name =
      read_property-Follows cfg props _ _ _ _ false (map_text-Follows (λ s. s) false) ctx slot_id _
  read-Follows Getter.is_data_registered =
      read_property-Follows cfg props _ _ _ _ false (map_int-Follows _ false) ctx slot_id _
  read-Follows Getter.is_data_emergency_only =
      read_property-Follows cfg props _ _ _ _ false (map_int-Follows _ false) ctx slot_id _
  read-Follows Getter.get_data_network_type =
      read_property-Follows cfg props _ _ _ _ false (map_int-Follows _ false) ctx slot_id _
  read-Follows Getter.is_data_roaming =
      read_property-Follows cfg props _ _ _ _ false (map_int-Follows _ false) ctx slot_id _
  read-Follows Getter.get_preferred_apn =
      read_property-Follows cfg props _ _ _ _ false (map_text-Follows (λ s. s) false) ctx slot_id _
  read-Follows Getter.is_ims_registered =
      read_property-Follows cfg props _ _ _ _ false (map_int-Follows _ false) ctx slot_id _
  read-Follows Getter.get_subscriber_uri_number =
      read_property-Follows cfg props _ _ _ _ false (map_text-Follows (λ s. s) false) ctx slot_id _
  read-Follows Getter.get_ims_enabled =
      read_property-Follows cfg props _ _ _ _ false (map_int-Follows _ false) ctx slot_id _
  read-Follows Getter.is_volte_available =
      read_property-Follows cfg props _ _ _ _ true (λ v. Follows-conditional _ v _ (volte-Writes v))
        ctx slot_id _
  read-Follows Getter.has_icc_card =
      read_property-Follows cfg props _ _ _ _ false (map_int-Follows _ false) ctx slot_id _
  read-Follows Getter.get_sim_state =
      read_property-Follows cfg props _ _ _ _ false (map_int-Follows _ false) ctx slot_id _
  read-Follows Getter.get_sim_iccid = Sim.Getters.read_with_card-Follows cfg props ctx slot_id _
  read-Follows Getter.get_sim_operator_name =
      Sim.Getters.read_with_card-Follows cfg props ctx slot_id _
  read-Follows Getter.get_subscriber_id = Sim.Getters.read_with_card-Follows cfg props ctx slot_id _

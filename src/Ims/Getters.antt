-- ===== src/Ims/Getters.antt =====
-- tapi_ims.c: the functions that read a property of the IP multimedia subsystem.
use frameworks_connectivity.Common.{String, Bool, true, ◌&&◌, ℤ, Option, none, some}
use frameworks_connectivity.Utils.Modem.{Config}
use frameworks_connectivity.Records.{einval, eio, ProxyType, Context}
use frameworks_connectivity.Bus.Message.{end, item, get_int}
use frameworks_connectivity.Bus.Property.{
  Properties, Answer, read_property, text_of, map_int, is_nonzero,
}

module _ (cfg : Config) (props : Properties) (ctx : Option Context) (slot_id : ℤ) where
  unfoldable pub is_registered : Answer Bool
  is_registered =
      read_property cfg props ctx slot_id true ProxyType.ims "Registered" eio (map_int is_nonzero)

  -- Both properties have to be there. The second is read once the first is, and the checks that are
  -- written again here pass again.
  unfoldable pub is_volte_available : Answer Bool
  is_volte_available = read_property cfg props ctx slot_id true ProxyType.ims "Registered" eio λ v.
      elim (get_int (item v end)) [
        | none ↦ none
        | some reg ↦
            read_property cfg props ctx slot_id true ProxyType.ims "VoiceCapable" eio
              (map_int λ cap. is_nonzero reg && is_nonzero cap)
      ]

  unfoldable pub get_subscriber_uri_number : Answer String
  get_subscriber_uri_number =
      read_property cfg props ctx slot_id true ProxyType.ims "SubscriberUriNumber" einval text_of

  unfoldable pub get_enabled : Answer Bool
  get_enabled =
      read_property cfg props ctx slot_id true ProxyType.ims "ImsSwitchStatus" einval
        (map_int is_nonzero)

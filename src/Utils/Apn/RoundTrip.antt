-- ===== src/Utils/Apn/RoundTrip.antt =====
-- The names of an access point's settings are read back as the settings.
use frameworks_connectivity.Common.{◌≡◌, refl, eq_iff, arith}
use frameworks_connectivity.Utils.Codec.{IsCodec}
use frameworks_connectivity.Utils.Apn.{
  ContextType, any, apn_type_to_string, apn_type_from_string, AuthMethod, chap, auth_none,
  apn_auth_to_string, apn_auth_from_string, Proto, ip, apn_proto_to_string, apn_proto_from_string,
}

apn_type_from-to : (t : ContextType) → apn_type_from_string (apn_type_to_string t) ≡ t
unfolding apn_type_to_string apn_type_from_string
apn_type_from-to any = refl
apn_type_from-to _ = refl

apn_auth_from-to : (a : AuthMethod) → apn_auth_from_string (apn_auth_to_string a) ≡ a
unfolding apn_auth_to_string apn_auth_from_string
apn_auth_from-to chap = refl
apn_auth_from-to _ = refl

apn_proto_from-to : (p : Proto) → apn_proto_from_string (apn_proto_to_string p) ≡ p
unfolding apn_proto_to_string apn_proto_from_string
apn_proto_from-to ip = refl
apn_proto_from-to _ = refl

-- The context type, the authentication method and the protocol of an access point are each read
-- back from the name that they are written as; a text is either the name of what it is read as, or
-- is read as the default (any context, no authentication, "IP"), as a null pointer is.
pub apn-IsCodec :
    IsCodec apn_type_to_string apn_type_from_string any
    × IsCodec apn_auth_to_string apn_auth_from_string auth_none
    × IsCodec apn_proto_to_string apn_proto_from_string ip
unfolding apn_type_to_string apn_type_from_string apn_auth_to_string apn_auth_from_string
    apn_proto_to_string apn_proto_from_string
apn-IsCodec = (
  record {
    from-to = apn_type_from-to;
    to-from = λ s. ground (
      arith,
      eq_iff s "internet",
      eq_iff s "hipri",
      eq_iff s "supl",
      eq_iff s "mms",
      eq_iff s "wap",
      eq_iff s "ims",
      eq_iff s "emergency",
    );
    from-null = refl;
  },
  record {
    from-to = apn_auth_from-to;
    to-from = λ s. ground (arith, eq_iff s "chap", eq_iff s "pap", eq_iff s "none");
    from-null = refl;
  },
  record {
    from-to = apn_proto_from-to;
    to-from = λ s. ground (arith, eq_iff s "IP", eq_iff s "IPV6", eq_iff s "IPV4V6");
    from-null = refl;
  },
)

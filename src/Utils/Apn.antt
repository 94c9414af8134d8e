-- ===== src/Utils/Apn.antt =====
-- tapi_utils.c: data context types, authentication methods and protocols of access points.
mod RoundTrip
use frameworks_connectivity.Common.{CString, some, none, not, str_eq, if◌then◌else◌}

-- `tapi_data_context_type`
pub data ContextType : Type 0 where
  any internet hipri supl mms wap ims emergency : ContextType

unfoldable pub apn_type_to_string : ContextType → CString
apn_type_to_string any = some ""
apn_type_to_string internet = some "internet"
apn_type_to_string hipri = some "hipri"
apn_type_to_string supl = some "supl"
apn_type_to_string mms = some "mms"
apn_type_to_string wap = some "wap"
apn_type_to_string ims = some "ims"
apn_type_to_string emergency = some "emergency"

unfoldable pub apn_type_from_string : CString → ContextType
apn_type_from_string none = any
apn_type_from_string (some type) =
    if str_eq type "internet"
    then internet
    else if str_eq type "hipri"
    then hipri
    else if str_eq type "supl"
    then supl
    else if str_eq type "mms"
    then mms
    else if str_eq type "wap"
    then wap
    else if str_eq type "ims"
    then ims
    else if str_eq type "emergency"
    then emergency
    else any

-- `tapi_data_auth_method`
pub data AuthMethod : Type 0 where
  chap pap auth_none : AuthMethod

unfoldable pub apn_auth_to_string : AuthMethod → CString
apn_auth_to_string chap = some "chap"
apn_auth_to_string pap = some "pap"
apn_auth_to_string auth_none = some "none"

-- The last test has one result on both branches.
unfoldable pub apn_auth_from_string : CString → AuthMethod
apn_auth_from_string none = auth_none
apn_auth_from_string (some auth) =
    if str_eq auth "chap"
    then chap
    else if str_eq auth "pap"
    then pap
    else if not (str_eq auth "none")
    then auth_none
    else auth_none

-- `tapi_data_proto`
pub data Proto : Type 0 where
  ip ipv6 ipv4v6 : Proto

unfoldable pub apn_proto_to_string : Proto → CString
apn_proto_to_string ip = some "IP"
apn_proto_to_string ipv6 = some "IPV6"
apn_proto_to_string ipv4v6 = some "IPV4V6"

unfoldable pub apn_proto_from_string : CString → Proto
apn_proto_from_string none = ip
apn_proto_from_string (some proto) =
    if str_eq proto "IP"
    then ip
    else if str_eq proto "IPV6"
    then ipv6
    else if str_eq proto "IPV4V6"
    then ipv4v6
    else ip

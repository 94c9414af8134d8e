-- ===== src/Lib.antt =====
-- The telephony framework: a C library by which a client reaches the ofono daemon over D-Bus. A
-- client opens a context (src/tapi_manager.c), which holds for each modem slot one gdbus proxy per
-- ofono interface. A request of one of src/tapi_*.c checks its arguments, allocates a result and a
-- handler, and hands a method call to gdbus; gdbus later runs the request's reply function, which
-- calls the client back with the result, and then the destroy function, which frees both. A
-- registration does the same with a signal watch, whose function runs for every signal.
--
-- Modelled are src/tapi_call.c, src/tapi_phonebook.c and src/tapi_utils.c as a whole, with the
-- structures of include/tapi.h, include/tapi_call.h and src/tapi_internal.h and the options of
-- Kconfig; of src/tapi_manager.c the life of a context, the requests with their replies and the
-- functions that read a property; and of src/tapi_sim.c, src/tapi_ss.c, src/tapi_data.c,
-- src/tapi_network.c, src/tapi_ims.c and src/tapi_stk.c the parts named below.
--
-- Utils (src/tapi_utils.c): Network, Apn and CallNames are the tables between enumerators and names
-- (tapi_utils_network_mode_to_string and the like); an enumeration is a data type with the
-- enumerators of the header, which a C caller could leave by a cast. Codec says what a pair of
-- tables promises. Modem has tapi_utils_get_modem_path, tapi_utils_get_slot_id and the options;
-- Proxies has get_modem_id_by_proxy; Plmn has get_covered_plmn and get_op_code_base_mcc_mnc;
-- Interfaces has is_interface_supported, with the interface names of ofono and the environment as
-- parameters, and Switches the table of the variables.
--
-- Records: the structures. An int result is `ret n` or `fail e` for a negated errno value. A pointer
-- that may be null is an Option, a block of the allocator is a number, and a field that malloc
-- leaves indeterminate is none. Texts are those before the terminator.
--
-- Bus: the libraries' side. Message has D-Bus messages as trees and the iterator functions; to read
-- a value at another type is undefined behaviour, and none. Monad has the state of the outside world
-- (World) and the steps of a request: each goes on, returns early, or dereferences what it may not
-- (crash). The answers of malloc, of g_dbus_proxy_method_call, of g_dbus_add_signal_watch and of
-- g_dbus_proxy_set_property_basic are functions of the World, so that a theorem holds for every
-- allocator and every gdbus; a method call may be sent, refused before its arguments are appended,
-- or refused after, as gdbus does. Request has the shapes in which requests allocate, and Guards the
-- checks that they begin with. Client and Answers say how a reply reaches the client, Property how a
-- property of a proxy is read, and Found when it is there. Held, Rules and RequestRules are the
-- rules for memory; Issued, SentRules and WholeRules those for what is sent, with Wire as the form
-- of a row of the tables; Delivers those for success; Logging has the data log over miwear.
--
-- Call (src/tapi_call.c): Params has the functions that append arguments and the data logging;
-- Request the requests that wait for a reply (tapi_call_dial, call_play_dtmf,
-- tapi_call_get_all_calls, tapi_call_merge_call, tapi_call_separate_call); Control those whose reply
-- is not looked at; Watch the registrations, tapi_call_get_default_slot and
-- tapi_call_get_call_by_state; Reply the reply functions; Decode decode_voice_call_info and the
-- loops over replies; Signal the signal functions; Ecc the emergency numbers. Sent and Registration
-- give every request and every registration one name. Protocol is the table of what each request
-- puts on the bus, one row for each request. The other modules hold the proofs.
--
-- Manager (src/tapi_manager.c): Proxies has get_persistent_dbus_proxy, get_mutable_dbus_proxy and
-- the functions that release them, with the references that the code holds; Session has tapi_open,
-- on_dbus_client_ready, on_modem_property_change and tapi_close, on a Session, which is the context
-- with the connection, the gdbus client and the watches; Life has what can happen to a context as a
-- step relation. Cells, References, Loops, Masks, Opening, Failing, Started and Reachable hold the
-- proofs about them. Requests and Abnormal have the requests, Protocol their table, Replies the
-- reply functions, Getters the functions that read a property, Settings the carrier settings as a
-- map. gdbus is a record of answers (Gdbus), and the names of ofono, the environment and ULONG_MAX
-- are another (Setting).
--
-- Sim (src/tapi_sim.c): Getters, Guards (the check for a card), Requests (PIN, logical channels,
-- APDU, UICC enablement), Protocol, Replies. Ss (src/tapi_ss.c): Log (the data log), Requests (call
-- barring, call forwarding, call waiting, line restriction, USSD, fixed dialling), Rules, Protocol,
-- Replies. Data (src/tapi_data.c): Requests and Protocol (networks, the preferred access point, data
-- allowed), Getters. Network (src/tapi_network.c): Cells (what a message says of a cell or an
-- operator), Requests and Protocol (automatic selection, the scan, the lists of cells), Replies with
-- Lists, Getters. Ims (src/tapi_ims.c): Getters. Phonebook (src/tapi_phonebook.c): Requests,
-- Protocol, Replies. Stk (src/tapi_stk.c): Requests and Protocol (registering an agent, selecting an
-- item). Requests and Getters give the requests, and the functions that read a property, of these
-- files one name, and GetterTable says what the latter read.
--
-- Loops are structural recursion on the message or the list, or on the number of slots that are
-- left. The loop of tapi_open runs on fuel, seven tries, which Opening shows to be enough. The
-- results of the data logging library, the syslog and the content of log lines are left out. A watch
-- id is not cut to the range of an int. An array of a caller has as many entries as the length that
-- comes with it says. Not modelled are the registrations and the signals of src/tapi_manager.c,
-- src/tapi_ss.c, src/tapi_network.c, src/tapi_data.c and src/tapi_ims.c, manual selection and the
-- registration info of a network, the access points, the agents and the properties of
-- src/tapi_stk.c, and src/tapi_sms.c and src/tapi_cbs.c; the command line tool and the tests are
-- clients of the library.
pub mod Common
pub mod Utils
pub mod Records
pub mod Bus
pub mod Call
pub mod Manager
pub mod Network
pub mod Data
pub mod Sim
pub mod Ims
pub mod Ss
pub mod Phonebook
pub mod Stk
pub mod GetterTable
pub mod Getters
pub mod Requests

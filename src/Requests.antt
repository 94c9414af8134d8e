-- ===== src/Requests.antt =====
-- The requests of tapi_manager.c, tapi_sim.c, tapi_ss.c, tapi_network.c, tapi_phonebook.c,
-- tapi_stk.c and tapi_data.c together, against the tables of what goes on the bus.
mod Tests
use frameworks_connectivity.Common.{ℕ, ℤ, ◌≡◌, Option, subst}
use frameworks_connectivity.Utils.Modem.{Config}
use frameworks_connectivity.Records.{Code, Callback, Context, ret}
use frameworks_connectivity.Bus.Monad.{World, M, stop}
use frameworks_connectivity.Bus.Issued.{Succeeds}
use frameworks_connectivity.Bus.Property.{Properties}
use frameworks_connectivity.Bus.Wire.{Row, Sent}
use frameworks_connectivity.Manager
use frameworks_connectivity.Manager.Protocol.{ManagerRequest}
use frameworks_connectivity.Sim
use frameworks_connectivity.Sim.Protocol.{SimRequest}
use frameworks_connectivity.Ss
use frameworks_connectivity.Ss.Protocol.{SsRequest}
use frameworks_connectivity.Network
use frameworks_connectivity.Network.Protocol.{NetworkRequest}
use frameworks_connectivity.Phonebook
use frameworks_connectivity.Phonebook.Protocol.{PhonebookRequest}
use frameworks_connectivity.Stk
use frameworks_connectivity.Stk.Protocol.{StkRequest}
use frameworks_connectivity.Data
use frameworks_connectivity.Data.Protocol.{DataRequest}

pub data Request : Type 0 where
  of_manager : ManagerRequest → Request
  of_sim : ℤ → Callback → SimRequest → Request
  of_ss : ℤ → Callback → SsRequest → Request
  of_network : ℤ → Callback → NetworkRequest → Request
  of_phonebook : ℤ → Callback → PhonebookRequest → Request
  of_stk : ℤ → Callback → StkRequest → Request
  of_data : DataRequest → Request

abbrev pub row : ℤ → Request → Row
row slot_id (of_manager r) = Manager.Protocol.row slot_id r
row slot_id (of_sim event cb r) = Sim.Protocol.row slot_id event cb r
row slot_id (of_ss event cb r) = Ss.Protocol.row slot_id event cb r
row slot_id (of_network event cb r) = Network.Protocol.row slot_id event cb r
row slot_id (of_phonebook event cb r) = Phonebook.Protocol.row slot_id event cb r
row slot_id (of_stk event cb r) = Stk.Protocol.row slot_id event cb r
row slot_id (of_data r) = Data.Protocol.row slot_id r

module _ (cfg : Config) (props : Properties) (ctx : Option Context) (slot_id : ℤ) where
  unfoldable pub send : Request → M Code
  send (of_manager r) = Manager.Protocol.send cfg ctx slot_id r
  send (of_sim event cb r) = Sim.Protocol.send cfg props ctx slot_id event cb r
  send (of_ss event cb r) = Ss.Protocol.send cfg ctx slot_id event cb r
  send (of_network event cb r) = Network.Protocol.send cfg ctx slot_id event cb r
  send (of_phonebook event cb r) = Phonebook.Protocol.send cfg ctx slot_id event cb r
  send (of_stk event cb r) = Stk.Protocol.send cfg ctx slot_id event cb r
  send (of_data r) = Data.Protocol.send cfg ctx slot_id r

  every-Sent :
      (r : Request) (w : World)
      → Succeeds (Sent cfg ctx slot_id (row slot_id r) w.pending) (send r w)
  unfolding send
  every-Sent (of_manager r) w = Manager.Protocol.manager-Sent cfg ctx slot_id r w
  every-Sent (of_sim event cb r) w = Sim.Protocol.sim-Sent cfg props ctx slot_id event cb r w
  every-Sent (of_ss event cb r) w = Ss.Protocol.ss-Sent cfg ctx slot_id event cb r w
  every-Sent (of_network event cb r) w = Network.Protocol.network-Sent cfg ctx slot_id event cb r w
  every-Sent (of_phonebook event cb r) w =
      Phonebook.Protocol.phonebook-Sent cfg ctx slot_id event cb r w
  every-Sent (of_stk event cb r) w = Stk.Protocol.stk-Sent cfg ctx slot_id event cb r w
  every-Sent (of_data r) w = Data.Protocol.data_request-Sent cfg ctx slot_id r w

  -- A request about a modem, the SIM card and its toolkit, supplementary services, the network, the phone
  -- book or the data connection that reports success returns 0, and had a context, a valid slot and arguments that
  -- its row of the table accepts. It has put exactly one call on the bus, through the slot's proxy
  -- of the row's type, with the member, the arguments and the reply function of the row, and with
  -- the message id, the slot and the callback that the client gave; the requests about call
  -- forwarding give their option in place of the slot.
  pub send-Sent :
      (r : Request) (w w' : World) (n : ℕ)
      → send r w ≡ stop (ret n) w'
      → Sent cfg ctx slot_id (row slot_id r) w.pending n w'
  send-Sent r w w' n e =
      subst (Succeeds (Sent cfg ctx slot_id (row slot_id r) w.pending)) e (every-Sent r w)

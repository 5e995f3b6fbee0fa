-- ===== src/TcpClient/Tests.antt =====
-- A client whose connection, number 1, comes down.
use netfish.Prelude.{◌≡◌, refl, true, [], ◌∷◌, none, some, ok, err, assertion_failed}
use netfish.Connector.{Connector, Kernel, connected, econnrefused}
use netfish.TcpClient.{TcpClient, established, connect_client, disconnect, remove_connection}
use netfish.TcpClient.Reconnecting.{disconnect_blocks_connect}

abbrev refusal : Kernel
refusal = record { sockfd = 5; saved_errno = econnrefused }

abbrev connector : Connector
connector = record {
  connect = true;
  state = connected;
  channel = none;
  retry_delay_ms = 500;
  timer_id = 0;
  timers = [];
  timers_created = 0;
  pending = [];
  sockets = [];
  handed_on = 4 ∷ [];
}

abbrev client : TcpClient
client = record {
  connector = connector;
  retry = true;
  connect = true;
  next_conn_id = 2;
  connection = some 1;
  actions = established 1 4 ∷ [];
}

disconnect_blocks_connect_example :
    (c' : TcpClient) × (remove_connection true 1 refusal (disconnect client) ≡ ok c')
    × (c'.connection ≡ none)
    × (connect_client true refusal c' ≡ err assertion_failed)
disconnect_blocks_connect_example = disconnect_blocks_connect 1 refusal client refl refl

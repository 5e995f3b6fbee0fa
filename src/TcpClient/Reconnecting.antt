-- ===== src/TcpClient/Reconnecting.antt =====
-- What follows when a client's connection comes down.
use netfish.Prelude.{
  ℕ, ◌≡◌, refl, true, [], ◌∷◌, ◌++◌, none, some, arith, ok, err, assertion_failed,
}
use netfish.Connector.{Kernel, connected, start, start_in_loop}
use netfish.TcpClient.{
  TcpClient, destroyed, connect_client, disconnect, remove_connection, restart_if,
}

-- A client that has disconnected can not connect again: its connection comes down without a restart,
-- the connector stays in the state of a made connection, and the assert of its start fails.
pub disconnect_blocks_connect :
    (id : ℕ) (k : Kernel) (c : TcpClient)
    → c.connector.state ≡ connected
    → c.connection ≡ some id
    → (c' : TcpClient) × (remove_connection true id k (disconnect c) ≡ ok c')
      × (c'.connection ≡ none)
      × (connect_client true k c' ≡ err assertion_failed)
unfolding remove_connection restart_if disconnect connect_client start start_in_loop
disconnect_blocks_connect id k c s mine =
    let d = disconnect c in
    (
      record d { connection = none; actions = d.actions ++ (destroyed id ∷ []) },
      ground (arith, mine),
      refl,
      ground (arith, s),
    )

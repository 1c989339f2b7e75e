-- ===== src/Rpc/Session.antt =====
-- What `TRXClient` and `SOLClient` keep between calls, and the calls through the client of a network.
use walletus.Base.{String, List, Result, ok, err, ◌≡◌, ap, arith}
use walletus.Chain.{Dict}
use walletus.Config.{ChainConfig}
use walletus.Rpc.Nodes.{RpcError, HttpClient, ensure_client}

-- The map of HTTP clients, and the world of the nodes.
pub record Session (W : Type 0) : Type 0 where
  pub clients : Dict HttpClient
  pub world : W

module _ {A W : Type 0} where
  with_picked :
      (HttpClient → W → Result RpcError A × W)
      → Result RpcError HttpClient × Dict HttpClient
      → W
      → Result RpcError A × Session W
  with_picked f (err text, clients) w = (err text, record { clients = clients; world = w })
  with_picked f (ok cli, clients) w =
      let done = f cli w in (done.0, record { clients = clients; world = done.1 })

  -- `pick`, and what is done with the client that it gives.
  unfoldable pub with_client :
      List ChainConfig
      → String
      → (HttpClient → W → Result RpcError A × W)
      → Session W
      → Result RpcError A × Session W
  unfolding with_picked
  with_client chain network f c = with_picked f (ensure_client chain network c.clients) c.world

  with_picked-ok :
      (f : HttpClient → W → Result RpcError A × W)
      (r : Result RpcError HttpClient × Dict HttpClient) (w : W) (cli : HttpClient)
      → r.0 ≡ ok cli
      → (with_picked f r w).0 ≡ (f cli w).0
  unfolding with_picked
  with_picked-ok f (ok found, clients) w cli h =
      let same : found ≡ cli = ground (arith, h) in ap (λ x. (f x w).0) same
  with_picked-ok f (err text, clients) w cli h = absurd (ground (arith, h))

  -- A call answers what its client answers.
  pub with_client-ok :
      (chain : List ChainConfig) (network : String) (f : HttpClient → W → Result RpcError A × W)
      (c : Session W) (cli : HttpClient)
      → (ensure_client chain network c.clients).0 ≡ ok cli
      → (with_client chain network f c).0 ≡ (f cli c.world).0
  unfolding with_client
  with_client-ok chain network f c cli h =
      with_picked-ok f (ensure_client chain network c.clients) c.world cli h

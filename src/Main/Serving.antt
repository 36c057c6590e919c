-- ===== src/Main/Serving.antt =====
-- What `main` has checked and done when it comes to the event loop.
use warhead_fix.Base.{ℕ, ◌≤◌, ◌≡◌, true, false, List}
use warhead_fix.Config.{ConfigMgr, get_text_default, get_option}
use warhead_fix.Base.Texts.{codes}
use warhead_fix.Strings.Convert.{Signed, signed_from_string}
use warhead_fix.Log.{Log}
use warhead_fix.NetworkThread
use warhead_fix.AsyncAcceptor
use warhead_fix.AsyncAcceptor.{AsyncAcceptor, Completion, bind}
use warhead_fix.AsyncAcceptor.Accepting.{Run}
use warhead_fix.Main.{Network, server_port, Server}

-- What `listen` has found when it comes to the event loop.
abbrev pub Listens : Network → ConfigMgr → Server → Type 0
Listens network config server =
    (get_option (signed_from_string 32) (codes "ServerPort")
        (record { negative = false; magnitude = 5001 }) config
      ≡ record { negative = false; magnitude = server.port })
    × (server.port ≤ 65535)
    × (get_text_default (codes "BindIP") (codes "0.0.0.0") config ≡ server.bind_ip)
    × (network.made server.bind_ip ≡ true)
    × (bind (network.report server.bind_ip server.port) ≡ true)
    × Run server.acceptor

module _ (network : Network) (config : ConfigMgr) (server : Server) where
  port : Signed
  port = server_port config

  bind_ip : List ℕ
  bind_ip = get_text_default (codes "BindIP") (codes "0.0.0.0") config

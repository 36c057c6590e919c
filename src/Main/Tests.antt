-- ===== src/Main/Tests.antt =====
-- A server with a `.conf.dist` file that sets the port.
use warhead_fix.Base.{
  ℕ, ◌≡◌, refl, true, false, Option, none, some, List, [], ◌∷◌, arith, if◌then◌else◌,
}
use warhead_fix.Base.Texts.{codes}
use warhead_fix.Base.Bytes.{same_bytes}
use warhead_fix.Config.{File, read, ConfigMgr}
use warhead_fix.Log.{Spdlog, Log}
use warhead_fix.Session.{AuthSession}
use warhead_fix.AsyncAcceptor.{AsyncAcceptor}
use warhead_fix.Main.{Network, Server, config_argument}
use warhead_fix.NetworkThread
use warhead_fix.AsyncAcceptor

last_file :
    (config_argument (codes "-c" ∷ codes "a" ∷ codes "x" ∷ codes "-c" ∷ codes "b" ∷ []) (codes "d")
      ≡ some (codes "b"))
    × (config_argument (codes "-c" ∷ []) (codes "d") ≡ none)
unfolding config_argument same_bytes
last_file = (refl, refl)

never_registered : (r r' : Unit {0}) → ◌≡◌ {A = Option (Unit {0})} none (some r') → ⊥
never_registered r r' e = ground (arith, e)

-- Loggers that spdlog never takes.
abbrev quiet : Spdlog
quiet = record {
  Registry = Unit;
  get = λ name r. none;
  register_logger = λ logger r. none;
  shutdown = λ r. r;
  opens = λ name. false;
  get-shutdown = λ name r. refl;
  get-register_logger = λ name logger r r' e. absurd (never_registered r r' e);
}

abbrev local : Network
local = record {
  made = λ bind_ip. true;
  report =
      λ bind_ip port. record { opens = true; reuses_address = true; binds = true; listens = true };
}

abbrev disk : List ℕ → File
disk name =
    if same_bytes name (codes "d.dist") then some (read (codes "ServerPort = 9050") ∷ []) else none

abbrev fresh : ConfigMgr
fresh = record { filename = []; config_options = []; using_dist_config = false }

abbrev config : ConfigMgr
config = record {
  filename = codes "d";
  config_options = (codes "ServerPort", codes "9050") ∷ [];
  using_dist_config = true;
}

abbrev silent : Log quiet
silent = record { logs_dir = []; lowest_log_level = 5; sink_list = []; registry = tt }

abbrev accepting : AsyncAcceptor AuthSession
accepting = record {
  closed = false;
  accepts = 0 ∷ [];
  socket_mgr = record {
    acceptor = true;
    threads = (NetworkThread.start NetworkThread.create).1 ∷ [];
    thread_count = 1;
  };
}

abbrev served : Server
served = record { port = 9050; bind_ip = codes "0.0.0.0"; acceptor = accepting }

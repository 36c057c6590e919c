-- ===== src/Main.antt =====
-- app/Main.cpp: the command line, and the start of the server.
pub mod Serving
mod Tests
use warhead_fix.Base.{
  ℕ, zero, suc, ◌+◌, ◌-◌, ◌*◌, ◌/◌, ◌%◌, ◌^◌, ◌≤◌, ◌<◌, min, ◌≡◌, refl, sym, ap, ap₂, subst, ◌∙◌,
  ◌≢◌, ◌↔◌, ◌⊎◌, inl, inr, Bool, true, false, not, ◌&&◌, ◌||◌, Option, none, some, List, [], ◌∷◌,
  ◌++◌, append-nil, append_assoc, arith, ltb, leb, ◌==◌, if◌then◌else◌, ltb→lt, lt→ltb, le→not-ltb,
  leb→le, le→leb, lt→not-leb, ==_iff, Bool-cases, Option-cases, length, take, drop, replicate,
  length-append, length-take, length-drop, length-replicate, take-append-drop, take-append,
  drop-append, take-append_le, drop-append_le, take_all, take-take, drop-drop, drop-take, drop_all,
  take-splice, drop-splice, take-drop-splice, drop_behind-splice, size_mod, add_size, sub_size,
  resize, copy_out, splice, copy_in, length-resize, length-splice, copy_out-some, copy_in-some,
}
use warhead_fix.Base.Options.{◌>>=◌}
use warhead_fix.Base.Texts.{codes}
use warhead_fix.Base.Bytes.{same_bytes}
use warhead_fix.Strings.Convert.{Signed, signed_from_string}
use warhead_fix.Config.{File, ConfigMgr, load_app_configs, get_option, get_text_default}
use warhead_fix.Log.{Spdlog, Log}
use warhead_fix.Log.Loading.{load_from_config}
use warhead_fix.Session.{AuthSession}
use warhead_fix.SocketMgr.{SocketMgr, start_network, create_threads}
use warhead_fix.AsyncAcceptor
use warhead_fix.AsyncAcceptor.{AsyncAcceptor, BindReport, bind, async_accept_with_callback}

-- The loop over the arguments after the first: the configuration file; `none` is a `-c` at the end.
unfoldable pub config_argument : List (List ℕ) → (config_file : List ℕ) → Option (List ℕ)
config_argument [] config_file = some config_file
config_argument (argument ∷ []) config_file =
    if same_bytes argument (codes "-c") then none else some config_file
config_argument (argument ∷ next ∷ arguments) config_file =
    let given = config_argument arguments next in
    let rest = config_argument (next ∷ arguments) config_file in
    if same_bytes argument (codes "-c") then given else rest

pub record Server : Type 0 where
  pub port : ℕ
  pub bind_ip : List ℕ
  pub acceptor : AsyncAcceptor AuthSession

-- How `main` goes: it returns early, is ended by an assertion or by `ABORT`, or comes to `ioContext->run()`.
pub data Course : Type 0 where
  exits : ℕ → Course
  aborts : Course
  serves : Server → Course

-- What Boost.Asio reports: whether an acceptor can be made for an address, and what `Bind` finds.
pub record Network : Type 0 where
  pub made : (bind_ip : List ℕ) → Bool
  pub report : (bind_ip : List ℕ) (port : ℕ) → BindReport

-- `AuthSocketMgr::StartNetwork` after the call of the base class.
unfoldable pub accept_first :
    Bool → SocketMgr AuthSession → Option (Option (AsyncAcceptor AuthSession))
accept_first false mgr = some none
accept_first true mgr = do a ← async_accept_with_callback (AsyncAcceptor.create mgr); some (some a)

-- `AuthSocketMgr::StartNetwork` with its default of one thread; the inner `none` is false.
unfoldable pub start_auth_network :
    (made bound : Bool) → Option (Option (AsyncAcceptor AuthSession))
unfolding accept_first
start_auth_network made bound = do
  (started, mgr) ←
      start_network made bound create_threads 1
        (record { acceptor = false; threads = []; thread_count = 0 })
  accept_first started mgr

unfoldable pub server_port : ConfigMgr → Signed
server_port config =
    get_option (signed_from_string 32) (codes "ServerPort")
      (record { negative = false; magnitude = 5001 }) config

-- `main` from the check of the port on.
unfoldable pub listen : Network → ConfigMgr → Course
listen network config =
    let port = server_port config in
    let bind_ip = get_text_default (codes "BindIP") (codes "0.0.0.0") config in
    if port.negative || ltb 65535 port.magnitude
    then exits 1
    else elim (start_auth_network (network.made bind_ip)
        (bind (network.report bind_ip port.magnitude))) [
          | none ↦ aborts
          | some none ↦ exits 1
          | some (some acceptor) ↦
              serves (record { port = port.magnitude; bind_ip = bind_ip; acceptor = acceptor })
        ]

unfoldable pub start_server : (spdlog : Spdlog) → Network → ConfigMgr → Log spdlog → Course
start_server spdlog network config log = elim (load_from_config spdlog config log) [
  | none ↦ aborts
  | some loaded ↦ listen network config
]

unfoldable pub main :
    (spdlog : Spdlog)
    → Network
    → (files : List ℕ → File) (arguments : List (List ℕ)) (default_file : List ℕ) → ConfigMgr
    → Log spdlog
    → Course
main spdlog network files arguments default_file mgr log =
    elim (config_argument arguments default_file) [
      | none ↦ exits 1
      | some config_file ↦
          let (ok, config) = load_app_configs files config_file mgr in
          if ok then start_server spdlog network config log else exits 1
    ]

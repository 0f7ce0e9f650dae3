-- ===== src/Diag.antt =====
-- internal/diag/diag.go and `diagHandler` of internal/server/api_diag.go: the diagnostic commands.
pub mod Listed
use wireguard_bgp.Base.{
  ℕ, Bool, true, false, Option, none, some, List, [], ◌∷◌, ◌++◌, if◌then◌else◌,
}
use wireguard_bgp.Text.{Text, codes, eq_text}
use wireguard_bgp.Supervisor.World.{History, Effect, ran, Outside}
use wireguard_bgp.Server.Site.{Host, Site, log}

-- `Command`, under its name in the map.
pub record Command : Type 0 where
  pub key : Text
  pub name : Text
  pub args : List Text

-- `Commands`.
unfoldable pub commands : List Command
commands =
    record {
      key = codes "routes";
      name = codes "ip";
      args = codes "route" ∷ codes "show" ∷ codes "table" ∷ codes "all" ∷ [];
    }
    ∷ record { key = codes "addresses"; name = codes "ip"; args = codes "addr" ∷ codes "show" ∷ [] }
    ∷ record { key = codes "rules"; name = codes "ip"; args = codes "rule" ∷ codes "show" ∷ [] }
    ∷ record { key = codes "links"; name = codes "ip"; args = codes "link" ∷ codes "show" ∷ [] }
    ∷ record {
      key = codes "neighbors";
      name = codes "ip";
      args = codes "neigh" ∷ codes "show" ∷ [];
    }
    ∷ record { key = codes "wg"; name = codes "wg"; args = codes "show" ∷ [] }
    ∷ record {
      key = codes "bird";
      name = codes "birdc";
      args = codes "show" ∷ codes "protocols" ∷ codes "all" ∷ [];
    }
    ∷ record {
      key = codes "bird-routes";
      name = codes "birdc";
      args = codes "show" ∷ codes "route" ∷ codes "all" ∷ [];
    }
    ∷ []

unfoldable pub command_named : Text → List Command → Option Command
unfolding eq_text
command_named key [] = none
command_named key (c ∷ rest) = if eq_text key c.key then some c else command_named key rest

pub data DiagError : Type 0 where
  unknown_command : Text → DiagError
  expired : Text → DiagError
  command_failed : Text → Text → DiagError

-- The output, given what `ctx.Err()` is behind the command.
abbrev pub outcome : Text → Option Text → Text × Option Text → Text × Option DiagError
outcome key (some e) (out, failure) = (out, some (expired e))
outcome key none (out, some e) = (out, some (command_failed key e))
outcome key none (out, none) = (out, none)

abbrev pub found :
    Outside → Option Text → Text → Option Command → History → Text × Option DiagError × History
found outside deadline key none h = ([], some (unknown_command key), h)
found outside deadline key (some c) h =
    let (out, e) = outcome key deadline (outside.run h c.name c.args) in
    (out, e, ran c.name c.args ∷ h)

-- `Run`; `deadline` is the error of its context behind the command.
unfoldable pub run : Outside → Option Text → Text → History → Text × Option DiagError × History
unfolding command_named commands
run outside deadline key h = found outside deadline key (command_named key commands) h

-- The reply of `diagHandler`: the name, the output and the error, which tells the status.
pub data DiagReply : Type 0 where
  diagnosed : Text → Text → Option DiagError → DiagReply

abbrev pub diag_logged :
    Host
    → Text
    → (DiagError → Text)
    → Text × Option DiagError × History
    → Site
    → DiagReply × Site × History
diag_logged host key print (out, none, h) s = (diagnosed key out none, s, h)
diag_logged host key print (out, some e, h) s = (
  diagnosed key out (some e),
  log host (codes "error") (codes "diagnostic command failed") (key ++ codes ": " ++ print e) s,
  h,
)

-- `diagHandler`; `print` is `err.Error()`.
unfoldable pub diag_handler :
    Outside
    → Host
    → (DiagError → Text)
    → Option Text
    → Text
    → Site
    → History
    → DiagReply × Site × History
unfolding run log
diag_handler outside host print deadline key s h =
    diag_logged host key print (run outside deadline key h) s

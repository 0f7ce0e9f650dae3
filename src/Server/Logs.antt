-- ===== src/Server/Logs.antt =====
-- internal/server/logs.go: the log of the last entries.
pub mod Bounded
use wireguard_bgp.Base.{
  ℕ, suc, ◌-◌, Bool, true, false, List, [], ◌∷◌, ◌++◌, length, drop, ltb, if◌then◌else◌,
}
use wireguard_bgp.Text.{Text, codes}
use wireguard_bgp.Strconv.{ℤ, pos, negsuc}

pub record LogEntry : Type 0 where
  pub time : Text
  pub level : Text
  pub message : Text
  pub detail : Text

pub record LogStore : Type 0 where
  pub limit : ℕ
  pub entries : List LogEntry

-- The slice that `Add` keeps: a fresh copy of the last `limit` entries, if there are more.
unfoldable pub trim_entries : ℕ → List LogEntry → List LogEntry
trim_entries limit entries =
    if ltb limit (length entries) then drop (length entries - limit) entries else entries

-- `Add`, with the entry that it makes; each call holds the store's mutex.
unfoldable pub add : LogEntry → LogStore → LogStore
unfolding trim_entries
add entry l = record { limit = l.limit; entries = trim_entries l.limit (l.entries ++ entry ∷ []) }

-- `if limit <= 0 { limit = 100 }`.
unfoldable pub limit_of : ℤ → ℕ
limit_of (negsuc n) = 100
limit_of (pos n) = if ltb 0 n then n else 100

unfoldable pub initialized : Text → LogEntry
initialized time = record {
  time = time;
  level = codes "info";
  message = codes "application initialized";
  detail = [];
}

-- `NewLogStore`, at a time.
unfoldable pub new_log_store : Text → ℤ → LogStore
unfolding add limit_of initialized
new_log_store time limit = add (initialized time) (record { limit = limit_of limit; entries = [] })

-- A run of calls of `Add`, in order.
unfoldable pub add_all : List LogEntry → LogStore → LogStore
unfolding add
add_all [] l = l
add_all (entry ∷ entries) l = add_all entries (add entry l)

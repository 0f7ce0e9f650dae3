-- ===== src/Server/Logs/Bounded.antt =====
-- The store holds the newest entries of all that were added, within its limit.
use wireguard_bgp.Base.{
  ℕ, zero, suc, ◌+◌, ◌-◌, ◌≤◌, ◌≡◌, refl, ◌∙◌, sym, ap, List, [], ◌∷◌, ◌++◌, length, drop, arith,
  length-append, length-drop, append_assoc, append-nil,
}
use wireguard_bgp.Text.{Text}
use wireguard_bgp.Strconv.{ℤ}
use wireguard_bgp.Server.Logs.{
  LogEntry, LogStore, trim_entries, add, limit_of, initialized, new_log_store, add_all,
}

-- The last `n` elements, or all if there are fewer.
abbrev pub last {ℓ} : {A : Type ℓ} → ℕ → List A → List A
last n xs = drop (length xs - n) xs

drop-append {ℓ} :
    {A : Type ℓ} (n : ℕ) (xs ys : List A) → n ≤ length xs → drop n (xs ++ ys) ≡ drop n xs ++ ys
drop-append zero xs ys h = refl
drop-append (suc n) [] ys h = absurd (omega arith)
drop-append (suc n) (x ∷ xs) ys h = drop-append n xs ys (omega arith)

drop-nil {ℓ} : {A : Type ℓ} (n : ℕ) → ◌≡◌ {A = List A} (drop n []) []
drop-nil zero = refl
drop-nil (suc n) = refl

drop-drop {ℓ} : {A : Type ℓ} (m n k : ℕ) (xs : List A) → k ≡ n + m → drop m (drop n xs) ≡ drop k xs
drop-drop m zero k xs h = ap (λ j. drop j xs) (omega arith)
drop-drop m (suc n) zero xs h = absurd (omega arith)
drop-drop m (suc n) (suc k) [] h = drop-nil m
drop-drop m (suc n) (suc k) (x ∷ xs) h = drop-drop m n k xs (omega arith)

none_over : (n : ℕ) (xs : List LogEntry) → length xs ≤ n → length xs - n ≡ 0
none_over n xs h = omega arith

trim_entries-last : (n : ℕ) (xs : List LogEntry) → trim_entries n xs ≡ last n xs
unfolding trim_entries
trim_entries-last n xs = ground (arith, short n xs)
  where
    short : (n : ℕ) (xs : List LogEntry) → length xs ≤ n → drop (length xs - n) xs ≡ xs
    short n xs h = ap (λ k. drop k xs) (none_over n xs h)

-- Keeping the last `n` and adding is adding and keeping the last `n`.
last-append_last {ℓ} :
    {A : Type ℓ} (n : ℕ) (xs ys : List A) → last n (last n xs ++ ys) ≡ last n (xs ++ ys)
last-append_last n xs ys =
    ap (last n) (sym (drop-append (length xs - n) xs ys (omega arith)))
    ∙ drop-drop (length (drop (length xs - n) (xs ++ ys)) - n) (length xs - n)
        (length (xs ++ ys) - n) (xs ++ ys)
        (omega (arith, length-drop (length xs - n) (xs ++ ys), length-append xs ys))

add-last :
    (entry : LogEntry) (l : LogStore) (all : List LogEntry)
    → l.entries ≡ last l.limit all
    → (add entry l).entries ≡ last l.limit (all ++ entry ∷ [])
unfolding add
add-last entry l all h =
    trim_entries-last l.limit (l.entries ++ entry ∷ [])
    ∙ ap (λ es. last l.limit (es ++ entry ∷ [])) h
    ∙ last-append_last l.limit all (entry ∷ [])

add_all-last :
    (entries : List LogEntry) (l : LogStore) (all : List LogEntry)
    → l.entries ≡ last l.limit all
    → (add_all entries l).entries ≡ last l.limit (all ++ entries)
unfolding add_all
add_all-last [] l all h = h ∙ ap (last l.limit) (sym (append-nil all))
add_all-last (entry ∷ entries) l all h =
    add_all-last entries (add entry l) (all ++ entry ∷ []) (add-last entry l all h)
    ∙ ap (last l.limit) (append_assoc all (entry ∷ []) entries)

-- Whatever is added to a new store, it holds the newest entries of all, its own first one among
-- them, as many as its limit allows: 100 where a limit that is not positive was asked for.
pub new_log_store-last :
    (time : Text) (limit : ℤ) (entries : List LogEntry)
    → (add_all entries (new_log_store time limit)).entries
      ≡ last (limit_of limit) (initialized time ∷ entries)
unfolding new_log_store
new_log_store-last time limit entries = add_all-last entries _ (initialized time ∷ []) (
    add-last (initialized time) (record { limit = limit_of limit; entries = [] }) []
      (sym (drop-nil (0 - limit_of limit))))

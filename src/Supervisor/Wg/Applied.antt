-- ===== src/Supervisor/Wg/Applied.antt =====
-- The commands behind a successful `Start`.
use wireguard_bgp.Base.{
  ℕ, zero, suc, ◌≤◌, ◌≡◌, inl, inr, refl, Option, none, some, [], ◌∷◌, arith, if◌then◌else◌, ap,
  subst, sym, Bool-cases,
}
use wireguard_bgp.Text.{Text, codes, is_empty}
use wireguard_bgp.Strconv.{ℤ, pos}
use wireguard_bgp.Wg.Config.{ConfigMeta}
use wireguard_bgp.Wg.Validate.{Error, validate_config}
use wireguard_bgp.Wg.Validate.Sound.{IsUnsetOrWithin, validate_config-IsUsable}
use wireguard_bgp.Supervisor.World.{
  read, wrote, ran, created, removed, closed, History, Answer, ok, err, Outside, World, note,
  run_step,
}
use wireguard_bgp.Supervisor.Wg.Options.{Settings, nonzero_or, config_path, effective_mtu}
use wireguard_bgp.Supervisor.Wg.Interface.{Outcome, ensure_interface}
use wireguard_bgp.Supervisor.Wg.{
  or_kill, succeed, and_then, setconf_args, address_args, link_args, run_link, run_address,
  run_setconf, set_link, set_address, set_config, configure, after_close, after_write, after_create,
  write_answer, with_setconf_file, after_validate, after_read, start,
}

abbrev IsWithin : ℕ → ℕ → ℤ → Type 0
IsWithin lo hi z = (n : ℕ) × (z ≡ pos n) × (lo ≤ n) × (n ≤ hi)

nonzero_or-IsWithin :
    (lo hi : ℕ) (z d : ℤ)
    → 1 ≤ lo
    → IsUnsetOrWithin lo hi z
    → IsWithin lo hi d
    → IsWithin lo hi (nonzero_or z d)
nonzero_or-IsWithin lo hi z d pos_lo (inl e) k = rw e k
nonzero_or-IsWithin lo hi z d pos_lo (inr (zero, e, l, h)) k = absurd (omega arith)
nonzero_or-IsWithin lo hi z d pos_lo (inr (suc n, e, l, h)) k = rw e (suc n, refl, l, h)

-- The MTU that is set lies in 576..9000.
effective_mtu-IsWithin :
    (m : Settings) (meta : ConfigMeta)
    → IsUnsetOrWithin 576 9000 m.mtu
    → IsUnsetOrWithin 576 9000 meta.interface_mtu
    → IsWithin 576 9000 (effective_mtu m meta)
unfolding effective_mtu
effective_mtu-IsWithin m meta h k =
    nonzero_or-IsWithin 576 9000 meta.interface_mtu _ (omega arith) k (
      nonzero_or-IsWithin 576 9000 m.mtu (pos 1320) (omega arith) h
        (1320, refl, omega arith, omega arith))

module _ (outside : Outside) (m : Settings) where
  -- The history of the three commands, the address only where the configuration has one.
  abbrev pub with_address : ConfigMeta → History → History
  with_address meta h =
      if is_empty meta.interface_address
      then h
      else ran (codes "ip") (address_args outside m meta.interface_address) ∷ h

  abbrev pub configured : ConfigMeta → Text → History → History
  configured meta path h =
      ran (codes "ip") (link_args outside m (effective_mtu m meta))
      ∷ with_address meta (ran (codes "wg") (setconf_args outside m path) ∷ h)

  -- A history that grows by `f` whenever the outcome is a success.
  abbrev Adds : (History → History) → World → Outcome → Type 0
  Adds f w o = o.error ≡ none → o.world.history ≡ f w.history

  or_kill-Adds :
      (f : History → History) (r : Text × Option Text × World) (next : Text → World → Outcome)
      → ((out : Text) (w : World) → Adds f w (next out w))
      → Adds f r.2 (or_kill outside m r next)
  or_kill-Adds f (out, none, w) next h = h out w
  or_kill-Adds f (out, some e, w) next h = λ e. absurd (ground arith)

  module _ (meta : ConfigMeta) where
    abbrev linked : History → History
    linked h = ran (codes "ip") (link_args outside m (effective_mtu m meta)) ∷ h

    set_link-Adds : (out : Text) (w : World) → Adds linked w (set_link outside m meta out w)
    unfolding set_link run_step
    set_link-Adds out w =
        or_kill-Adds (λ h. h) (run_link outside m meta out w) (succeed outside m) (λ out w e. refl)

    set_address-Adds :
        (out : Text) (w : World)
        → Adds (λ h. linked (with_address meta h)) w (set_address outside m meta out w)
    unfolding set_address run_step
    set_address-Adds out w = elim (Bool-cases (is_empty meta.interface_address)) [
      | inl e ↦ rw e (set_link-Adds out w)
      | inr e ↦ rw e (
          or_kill-Adds linked (run_address outside m meta out w) (set_link outside m meta)
            set_link-Adds)
    ]

    set_config-Adds :
        (path out : Text) (w : World)
        → Adds (configured meta path) w (set_config outside m meta path out w)
    unfolding set_config run_step
    set_config-Adds path out w =
        or_kill-Adds (λ h. linked (with_address meta h)) (run_setconf outside m path out w)
          (set_address outside m meta) set_address-Adds

    -- The end of a successful run: the file is removed after the three commands.
    abbrev EndsWith : Outcome → Type 0
    EndsWith o =
        o.error ≡ none
        → (path : Text) × (before : History) × (o.world.history
            ≡ removed path ∷ configured meta path before)

    configure-EndsWith : (path : Text) (w : World) → EndsWith (configure outside m meta path w)
    unfolding configure
    configure-EndsWith path w h = (
      path,
      (ensure_interface outside m [] w).world.history,
      ap (◌∷◌ (removed path)) (then-Adds (ensure_interface outside m [] w) h),
    )
      where
        then-Adds :
            (o : Outcome)
            → Adds
                (configured meta path)
                o.world
                (and_then outside m o (set_config outside m meta path))
        then-Adds o e = ground (arith, set_config-Adds path o.output o.world)

    after_write-EndsWith :
        (path : Text) (e : Option Text) (w : World) → EndsWith (after_write outside m meta path e w)
    after_write-EndsWith path (some e) w h = absurd (ground arith)
    after_write-EndsWith path none w h =
        after_close-EndsWith (outside.close_temp w.history path) (note (closed path) w) h
      where
        after_close-EndsWith :
            (e : Option Text) (w : World) → EndsWith (after_close outside m meta path e w)
        after_close-EndsWith none w = configure-EndsWith path w
        after_close-EndsWith (some e) w = λ h. absurd (ground arith)

    after_create-EndsWith :
        (input : Text) (a : Answer Text) (w : World)
        → EndsWith (after_create outside m meta input a w)
    after_create-EndsWith input (err e) w h = absurd (ground arith)
    after_create-EndsWith input (ok path) w h =
        after_write-EndsWith path (write_answer outside m input path w)
          (note (wrote path) (note (created path) w)) h

  -- What a successful `Start` has read, checked and done.
  pub record IsApplied (input : Text) (h : History) : Type 0 where
    pub valid : (validate_config input).1 ≡ none
    pub path : Text
    pub before : History
    pub did : h ≡ removed path ∷ configured (validate_config input).0 path before
    pub mtu : ℕ
    pub mtu_is : effective_mtu m (validate_config input).0 ≡ pos mtu
    pub mtu_ge : 576 ≤ mtu
    pub mtu_le : mtu ≤ 9000

  after_validate-IsApplied :
      (input : Text) (w : World)
      → IsUnsetOrWithin 576 9000 m.mtu
      → (r : ConfigMeta × Option Error) → validate_config input ≡ r
      → (after_validate outside m input r w).error ≡ none
      → IsApplied input (after_validate outside m input r w).world.history
  unfolding with_setconf_file
  after_validate-IsApplied input w mtu (meta, some e) v h = absurd (ground arith)
  after_validate-IsApplied input w mtu (meta, none) v h =
      let (path, before, did) =
        after_create-EndsWith meta input (outside.create_temp w.history) w h in
      let valid : (validate_config input).1 ≡ none = ap (λ r. r.1) v in
      let (n, e, lo, hi) =
        effective_mtu-IsWithin m (validate_config input).0 mtu
          (validate_config-IsUsable input valid).checked.mtu_ok in
      record {
        valid = valid;
        path = path;
        before = before;
        did =
            subst
              (λ (c : ConfigMeta).
                (with_setconf_file outside m meta input w).world.history
                ≡ removed path ∷ configured c path before)
              (sym (ap (λ r. r.0) v)) did;
        mtu = n;
        mtu_is = e;
        mtu_ge = lo;
        mtu_le = hi;
      }

  after_read-IsApplied :
      (w v : World) (file : Text)
      → IsUnsetOrWithin 576 9000 m.mtu
      → (a : Answer Text) → outside.read_file v.history file ≡ a
      → (after_read outside m a w).error ≡ none
      → (input : Text) × (outside.read_file v.history file ≡ ok input)
        × IsApplied input (after_read outside m a w).world.history
  after_read-IsApplied w v file mtu (err e) r h = absurd (ground arith)
  after_read-IsApplied w v file mtu (ok input) r h =
      (input, r, after_validate-IsApplied input w mtu (validate_config input) refl h)

-- If `Start` succeeds, the configuration file was read and is valid, and the last effects are, in
-- this order: `wg setconf` with the temporary file, `ip addr replace` with the interface address if
-- the file has one, `ip link set mtu N up` with N in 576..9000, and the removal of the temporary
-- file. The manager's own MTU is 0, which stands for 1320, or in that range.
pub start-IsApplied :
    (outside : Outside) (m : Settings) (w : World)
    → IsUnsetOrWithin 576 9000 m.mtu
    → (start outside m w).error ≡ none
    → (input : Text) × (outside.read_file w.history (config_path m) ≡ ok input)
      × IsApplied outside m input (start outside m w).world.history
unfolding start
start-IsApplied outside m w mtu h =
    after_read-IsApplied outside m (note (read (config_path m)) w) w (config_path m) mtu
      (outside.read_file w.history (config_path m)) refl h

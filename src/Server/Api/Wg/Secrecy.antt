-- ===== src/Server/Api/Wg/Secrecy.antt =====
-- What `getWGConfig` shows does not depend on the secrets: with the text of the configuration, the
-- metadata that `ParseConfig` reads from it.
use wireguard_bgp.Base.{
  true, ◌≡◌, ◌≢◌, refl, ◌∙◌, sym, ap, [], ◌∷◌, List, none, some, Option, arith,
}
use wireguard_bgp.Text.{Text, trim}
use wireguard_bgp.Wg.Scan.{scan}
use wireguard_bgp.Wg.Line.{
  Line, ignored, bare, header, directive, classify, qualified, is_sensitive, is_sensitive_directive,
  Directive, directive_named, public_key, private_key, preshared_key,
}
use wireguard_bgp.Wg.Line.Laws.{classify-trim}
use wireguard_bgp.Wg.Config.{ConfigMeta, no_meta, set_directive, parse_lines, parse_config}
use wireguard_bgp.Wg.Transform.{redact_config}
use wireguard_bgp.Wg.Transform.Secrecy.{
  SamePublic, section_after, done, same, secret, redact_config_secrecy,
}
use wireguard_bgp.App.Paths.{wire_guard_path}
use wireguard_bgp.Server.Site.{file_at, Host, Site}
use wireguard_bgp.Server.Api.Wg.{
  redacted_key, redacted_meta, shown_file, shown_unless, get_wg_config, shown,
}

redacted_key_lem : (key : Text) → redacted_key (redacted_key key) ≡ redacted_key key
redacted_key_lem [] = refl
redacted_key_lem (c ∷ key) = refl

-- A directive is read over redacted metadata as it is over the plain ones.
redacted_meta-set_directive :
    (d : Directive) (value : Text) (meta : ConfigMeta)
    → redacted_meta (set_directive d value (redacted_meta meta))
      ≡ redacted_meta (set_directive d value meta)
unfolding redacted_meta set_directive
redacted_meta-set_directive public_key value meta = refl
redacted_meta-set_directive d value meta =
    ap (λ k. record (set_directive d value meta) { peer_public_key = k })
      (redacted_key_lem meta.peer_public_key)

-- The directives whose values `RedactConfig` hides leave the same redacted metadata behind.
set_sensitive :
    (d : Directive) (value value' : Text) (meta : ConfigMeta)
    → is_sensitive d ≡ true
    → value ≢ []
    → value' ≢ []
    → redacted_meta (set_directive d value meta) ≡ redacted_meta (set_directive d value' meta)
unfolding redacted_meta set_directive
set_sensitive d [] value' meta s ne ne' = absurd (ne refl)
set_sensitive d (x ∷ v) [] meta s ne ne' = absurd (ne' refl)
set_sensitive private_key (x ∷ v) (y ∷ v') meta s ne ne' = refl
set_sensitive public_key (x ∷ v) (y ∷ v') meta s ne ne' = refl
set_sensitive preshared_key (x ∷ v) (y ∷ v') meta s ne ne' = refl
set_sensitive _ (x ∷ v) (y ∷ v') meta s ne ne' = absurd (ground arith)

-- A line that both files have.
same_line :
    (section raw : Text) (raws raws' : List Text) (line : Line) (m m' : ConfigMeta)
    → classify (trim raw) raw ≡ line
    → redacted_meta m ≡ redacted_meta m'
    → ((m m' : ConfigMeta)
        → redacted_meta m ≡ redacted_meta m'
        → redacted_meta (parse_lines (section_after section line) m raws)
          ≡ redacted_meta (parse_lines (section_after section line) m' raws'))
    → redacted_meta (parse_lines section m (raw ∷ raws))
      ≡ redacted_meta (parse_lines section m' (raw ∷ raws'))
unfolding parse_lines
same_line section raw raws raws' ignored m m' e h later =
    rw (parse_lines, classify-trim raw, e) (later m m' h)
same_line section raw raws raws' bare m m' e h later =
    rw (parse_lines, classify-trim raw, e) (later m m' h)
same_line section raw raws raws' (header name) m m' e h later =
    rw (parse_lines, classify-trim raw, e) (later m m' h)
same_line section raw raws raws' (directive before key value) m m' e h later =
    let d = directive_named (qualified section key) in
    rw (parse_lines, classify-trim raw, e)
      (later (set_directive d value m) (set_directive d value m') (
        sym (redacted_meta-set_directive d value m)
        ∙ ap (λ x. redacted_meta (set_directive d value x)) h
        ∙ redacted_meta-set_directive d value m'))

parse_directive :
    (section raw : Text) (raws : List Text) (before key value : Text) (m : ConfigMeta)
    → classify (trim raw) raw ≡ directive before key value
    → parse_lines section m (raw ∷ raws)
      ≡ parse_lines section (set_directive (directive_named (qualified section key)) value m) raws
unfolding parse_lines
parse_directive section raw raws before key value m e = rw (parse_lines, classify-trim raw, e) refl

parse_lines-SamePublic :
    {section : Text} {raws raws' : List Text} (m m' : ConfigMeta)
    → SamePublic section raws raws'
    → redacted_meta m ≡ redacted_meta m'
    → redacted_meta (parse_lines section m raws) ≡ redacted_meta (parse_lines section m' raws')
unfolding is_sensitive_directive parse_lines
parse_lines-SamePublic m m' done h = h
parse_lines-SamePublic {section} m m' (same {raws = raws} {raws' = raws'} raw rest) h =
    same_line section raw raws raws' (classify (trim raw) raw) m m' refl h
      (λ n n' k. parse_lines-SamePublic n n' rest k)
parse_lines-SamePublic {section} m m'
      (secret {raws = raws} {raws' = raws'} raw raw' before key value value' e e' s ne ne' rest) h =
    let d = directive_named (qualified section key) in
    ap redacted_meta (parse_directive section raw raws before key value m e)
    ∙ parse_lines-SamePublic (set_directive d value m) (set_directive d value' m') rest (
        set_sensitive d value value' m s ne ne'
        ∙ sym (redacted_meta-set_directive d value' m)
        ∙ ap (λ x. redacted_meta (set_directive d value' x)) h
        ∙ redacted_meta-set_directive d value' m')
    ∙ ap redacted_meta (sym (parse_directive section raw' raws' before key value' m' e'))

redacted_meta-parse_config :
    (a b : Text)
    → SamePublic [] (scan a).lines (scan b).lines
    → redacted_meta (parse_config a) ≡ redacted_meta (parse_config b)
unfolding parse_config
redacted_meta-parse_config a b h = parse_lines-SamePublic no_meta no_meta h refl

-- Two states of the files in which the WireGuard configurations differ only in the non-empty values
-- of private keys, public keys and preshared keys get the same reply from `getWGConfig`: neither
-- the text nor the metadata that it shows tells anything of those values.
pub get_wg_config_secrecy :
    (host : Host) (s t : Site) (a b : Text)
    → wire_guard_path s.cfg ≡ wire_guard_path t.cfg
    → file_at (wire_guard_path s.cfg) s.disk ≡ some a
    → file_at (wire_guard_path t.cfg) t.disk ≡ some b
    → SamePublic [] (scan a).lines (scan b).lines
    → get_wg_config host s ≡ get_wg_config host t
unfolding get_wg_config
get_wg_config_secrecy host s t a b p read_a read_b h =
    same_reply (host.read_fault (wire_guard_path s.cfg))
    ∙ ap (λ q. shown_unless (host.read_fault q) q t.disk) p
  where
    same_reply :
        (fault : Option Text)
        → shown_unless fault (wire_guard_path s.cfg) s.disk
          ≡ shown_unless fault (wire_guard_path s.cfg) t.disk
    same_reply (some e) = refl
    same_reply none =
        ap (shown_file (wire_guard_path s.cfg)) read_a
        ∙ ap (λ text. shown (wire_guard_path s.cfg) true text (redacted_meta (parse_config a)))
            (redact_config_secrecy a b h)
        ∙ ap (shown (wire_guard_path s.cfg) true (redact_config b))
            (redacted_meta-parse_config a b h)
        ∙ ap (shown_file (wire_guard_path s.cfg)) (sym (ap (λ q. file_at q t.disk) p ∙ read_b))

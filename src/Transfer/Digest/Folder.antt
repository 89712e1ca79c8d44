-- ===== src/Transfer/Digest/Folder.antt =====
-- A valid digest names a folder of its own inside the cache.
use baleen_engine.Base.{
  ◌≡◌, refl, true, false, [], ◌∷◌, ◌++◌, arith, Text, text, ◌==◌, ◌≤◌, if◌then◌else◌, length, all,
  elem, has_prefix, drop, nat_eq, replace_all, ap, ◌∙◌, sym,
}
use baleen_engine.Transfer.Digest.{is_any_hex, is_digest}
use baleen_engine.Transfer.Stitch.{safe_digest}

hex-replace : (h : Text) → all is_any_hex h ≡ true → replace_all b':' b'-' h ≡ h
unfolding all is_any_hex replace_all
hex-replace [] e = refl
hex-replace (c ∷ h) e = ground (arith, hex-replace h)

hex-no_slash : (h : Text) → all is_any_hex h ≡ true → elem b'/' h ≡ false
unfolding all is_any_hex elem
hex-no_slash [] e = refl
hex-no_slash (c ∷ h) e = ground (arith, hex-no_slash h)

-- What a text with this prefix is.
prefix-split : (s p : Text) → has_prefix s p ≡ true → s ≡ p ++ drop (length p) s
unfolding has_prefix
prefix-split s [] e = refl
prefix-split [] (q ∷ p) e = cc
prefix-split (c ∷ s) (q ∷ p) e = ground (arith, prefix-split s p)

abbrev prefix : Text
prefix = text "sha256:"

replace-append :
    (a b : Text)
    → replace_all b':' b'-' (a ++ b) ≡ replace_all b':' b'-' a ++ replace_all b':' b'-' b
unfolding replace_all
replace-append [] b = refl
replace-append (c ∷ a) b = ap (◌∷◌ (if c == b':' then b'-' else c)) (replace-append a b)

digest_parts :
    (d : Text)
    → is_digest d ≡ true
    → (has_prefix d prefix ≡ true) × (length d ≡ 71) × (all is_any_hex (drop 7 d) ≡ true)
unfolding is_digest
digest_parts d e = ground arith

safe_digest_lem : (d : Text) → is_digest d ≡ true → safe_digest d ≡ text "sha256-" ++ drop 7 d
unfolding safe_digest replace_all
safe_digest_lem d e =
    let (p, n, h) = digest_parts d e in
    ap (replace_all b':' b'-') (prefix-split d prefix p)
    ∙ replace-append prefix (drop 7 d)
    ∙ ap (◌++◌ (text "sha256-")) (hex-replace (drop 7 d) h)

no_slash_append :
    (a b : Text) → elem b'/' a ≡ false → elem b'/' b ≡ false → elem b'/' (a ++ b) ≡ false
unfolding elem
no_slash_append [] b ha hb = hb
no_slash_append (c ∷ a) b ha hb = ground (arith, no_slash_append a b)

-- The folder of a valid digest has no '/', so that it lies in the cache; the digest is long enough
-- for the log line that shows its first 15 bytes; and two valid digests with one folder are equal.
pub safe_digest-safe :
    (d e : Text)
    → is_digest d ≡ true
    → is_digest e ≡ true
    → (elem b'/' (safe_digest d) ≡ false)
      × (15 ≤ length d)
      × (safe_digest d ≡ safe_digest e → d ≡ e)
unfolding elem
safe_digest-safe d e hd he =
    let (p, n, h) = digest_parts d hd in
    let (q, m, k) = digest_parts e he in
    (
      rw (safe_digest_lem d hd)
          (no_slash_append (text "sha256-") (drop 7 d) refl (hex-no_slash (drop 7 d) h)),
      omega (arith, n),
      λ same.
          prefix-split d prefix p
          ∙ ap (λ (t : Text). prefix ++ t)
              (ap (drop 7) (sym (safe_digest_lem d hd) ∙ same ∙ safe_digest_lem e he))
          ∙ sym (prefix-split e prefix q),
    )

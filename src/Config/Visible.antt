-- ===== src/Config/Visible.antt =====
-- A text is blank, as `not s.strip()` tests, exactly if each of its characters is whitespace.
use mathlib.Core.List.{reverse, reverse-cons}
use mcp_auth_gateway.Prelude.{
  ℕ, Str, Bool, true, false, not, ◌||◌, ◌≡◌, ◌↔◌, refl, sym, ap, ◌∙◌, arith, [], ◌∷◌, ◌++◌,
  is_empty, is_space, drop_while, strip_right, strip, Member, Bool-cases, inl, inr,
}

-- whether a character does not pass a test
any_not : (ℕ → Bool) → Str → Bool
any_not p [] = false
any_not p (c ∷ s) = not (p c) || any_not p s

any_not-append : (p : ℕ → Bool) (s t : Str) → any_not p (s ++ t) ≡ any_not p s || any_not p t
unfolding any_not
any_not-append p [] t = refl
any_not-append p (c ∷ s) t = ground (arith, any_not-append p s t)

any_not-reverse : (p : ℕ → Bool) (s : Str) → any_not p (reverse s) ≡ any_not p s
unfolding any_not
any_not-reverse p [] = refl
any_not-reverse p (c ∷ s) =
    rw (reverse-cons c s)
      (rw (any_not-append p (reverse s) (c ∷ [])) (ground (arith, any_not-reverse p s)))

any_not-drop_while : (p : ℕ → Bool) (s : Str) → any_not p (drop_while p s) ≡ any_not p s
unfolding any_not drop_while
any_not-drop_while p [] = refl
any_not-drop_while p (c ∷ s) = ground (arith, any_not-drop_while p s)

is_empty-drop_while : (p : ℕ → Bool) (s : Str) → is_empty (drop_while p s) ≡ not (any_not p s)
unfolding any_not drop_while
is_empty-drop_while p [] = refl
is_empty-drop_while p (c ∷ s) = ground (arith, is_empty-drop_while p s)

is_empty-strip : (s : Str) → is_empty (strip s) ≡ not (any_not (λ c. is_space c) s)
unfolding strip strip_right
is_empty-strip s =
    let p : ℕ → Bool = λ c. is_space c in
    is_empty-drop_while p (reverse (drop_while p (reverse s)))
    ∙ ap not (
        any_not-reverse p (drop_while p (reverse s))
        ∙ (any_not-drop_while p (reverse s) ∙ any_not-reverse p s))

any_not_iff :
    (p : ℕ → Bool) (s : Str) → (any_not p s ≡ true) ↔ ((c : ℕ) × Member c s × (p c ≡ false))
unfolding any_not
any_not_iff p [] = (λ h. cc, λ (c, m, e). absurd m)
any_not_iff p (c ∷ s) = (
  λ h. elim (Bool-cases (p c)) [
    | inr e ↦ (c, inl refl, e)
    | inl e ↦ let (d, m, f) = (any_not_iff p s).0 (ground arith) in (d, inr m, f)
  ],
  λ (d, m, f). elim m [
    | inl q ↦ let f' : p c ≡ false = ap p (sym q) ∙ f in ground arith
    | inr later ↦ ground (arith, (any_not_iff p s).1 (d, later, f))
  ],
)

-- A character that is no whitespace.
abbrev pub IsVisible : Str → Type 0
IsVisible s = (c : ℕ) × Member c s × (is_space c ≡ false)

pub is_empty-strip_iff : (s : Str) → (is_empty (strip s) ≡ false) ↔ IsVisible s
is_empty-strip_iff s = (
  λ h. (any_not_iff (λ c. is_space c) s).0 (ground (arith, is_empty-strip s)),
  λ v. ground (arith, is_empty-strip s, (any_not_iff (λ c. is_space c) s).1 v),
)

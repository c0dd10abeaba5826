-- ===== src/Battery/Snapshot/Sanitized.antt =====
-- What becomes of a padded identity text.
use device_manager.Common.{
  ℕ, true, false, List, [], ◌∷◌, ◌++◌, ◌≡◌, ◌⊎◌, inl, inr, refl, ap, sym, ◌∙◌, ◌==◌, All, arith,
  append-nil,
}
use device_manager.Battery.Snapshot.{
  blank, is_kept, printable, drop_leading, drop_trailing, sanitize_identity_string,
}

-- Padding: NUL, 0xFF and blanks.
abbrev pub IsPad : ℕ → Type 0
IsPad b = (b ≡ 0) ⊎ ((b ≡ 0xFF) ⊎ (b ≡ blank))

abbrev pub StartsClean : List ℕ → Type 0
StartsClean [] = Unit
StartsClean (b ∷ bs) = (b == blank) ≡ false

abbrev pub EndsClean : List ℕ → Type 0
EndsClean [] = Unit
EndsClean (b ∷ []) = (b == blank) ≡ false
EndsClean (b ∷ c ∷ cs) = EndsClean (c ∷ cs)

-- Printable characters, with no blank at either end.
pub record IsText (t : List ℕ) : Type 0 where
  pub kept : All (λ b. is_kept b ≡ true) t
  pub starts : StartsClean t
  pub ends : EndsClean t

abbrev AllBlank : List ℕ → Type 0
AllBlank = All (λ b. b ≡ blank)

printable-append : (xs ys : List ℕ) → printable (xs ++ ys) ≡ printable xs ++ printable ys
unfolding printable
printable-append [] ys = refl
printable-append (x ∷ xs) ys = ground (arith, printable-append xs ys)

printable-AllBlank : (xs : List ℕ) → All IsPad xs → AllBlank (printable xs)
unfolding printable
printable-AllBlank [] h = tt
printable-AllBlank (x ∷ xs) (inl e, hs) = rw e (printable-AllBlank xs hs)
printable-AllBlank (x ∷ xs) (inr (inl e), hs) = rw e (printable-AllBlank xs hs)
printable-AllBlank (x ∷ xs) (inr (inr e), hs) = rw e (refl, printable-AllBlank xs hs)

printable_kept : (t : List ℕ) → All (λ b. is_kept b ≡ true) t → printable t ≡ t
unfolding printable
printable_kept [] h = refl
printable_kept (b ∷ bs) (h, hs) = rw h (ap (λ cs. b ∷ cs) (printable_kept bs hs))

drop_leading-blanks : (bs cs : List ℕ) → AllBlank bs → drop_leading (bs ++ cs) ≡ drop_leading cs
unfolding drop_leading
drop_leading-blanks [] cs h = refl
drop_leading-blanks (b ∷ bs) cs (e, hs) = rw e (drop_leading-blanks bs cs hs)

drop_trailing-blanks : (bs : List ℕ) → AllBlank bs → drop_trailing bs ≡ []
unfolding drop_trailing
drop_trailing-blanks [] h = refl
drop_trailing-blanks (b ∷ bs) (e, hs) = rw (drop_trailing-blanks bs hs, e) refl

drop_trailing-last :
    (b : ℕ) (xs : List ℕ)
    → drop_trailing xs ≡ []
    → (b == blank) ≡ false
    → drop_trailing (b ∷ xs) ≡ b ∷ []
unfolding drop_trailing
drop_trailing-last b xs e f = rw (e, f) refl

drop_trailing-more :
    (b : ℕ) (xs : List ℕ) (c : ℕ) (ys : List ℕ)
    → drop_trailing xs ≡ c ∷ ys
    → drop_trailing (b ∷ xs) ≡ b ∷ c ∷ ys
unfolding drop_trailing
drop_trailing-more b xs c ys e = rw e refl

drop_trailing-text :
    (b : ℕ) (bs cs : List ℕ)
    → EndsClean (b ∷ bs)
    → AllBlank cs
    → drop_trailing (b ∷ (bs ++ cs)) ≡ b ∷ bs
drop_trailing-text b [] cs e h = drop_trailing-last b cs (drop_trailing-blanks cs h) e
drop_trailing-text b (c ∷ bs) cs e h =
    drop_trailing-more b (c ∷ (bs ++ cs)) c bs (drop_trailing-text c bs cs e h)

trims :
    (t front back : List ℕ)
    → IsText t
    → AllBlank front
    → AllBlank back
    → drop_trailing (drop_leading (front ++ (t ++ back))) ≡ t
unfolding drop_leading drop_trailing
trims [] front back v h k = ap drop_trailing (
    drop_leading-blanks front back h
    ∙ ap drop_leading (sym (append-nil back))
    ∙ drop_leading-blanks back [] k)
trims (b ∷ bs) front back v h k =
    ap drop_trailing (drop_leading-blanks front (b ∷ (bs ++ back)) h)
    ∙ rw v.starts (drop_trailing-text b bs back v.ends k)

-- A text of printable characters with no blank at either end, padded with NULs, 0xFFs and blanks in
-- any mixture in front and behind, is sanitized to itself, whatever it holds in between.
pub sanitize_identity_string-padded :
    (t front back : List ℕ)
    → IsText t
    → All IsPad front
    → All IsPad back
    → sanitize_identity_string (front ++ (t ++ back)) ≡ t
unfolding sanitize_identity_string
sanitize_identity_string-padded t front back v h k =
    ap (λ bs. drop_trailing (drop_leading bs))
      (printable-append front (t ++ back)
        ∙ ap (λ bs. printable front ++ bs)
            (printable-append t back ∙ ap (λ bs. bs ++ printable back) (printable_kept t v.kept)))
    ∙ trims t (printable front) (printable back) v (printable-AllBlank front h)
        (printable-AllBlank back k)

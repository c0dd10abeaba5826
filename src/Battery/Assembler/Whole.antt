-- ===== src/Battery/Assembler/Whole.antt =====
-- A response that arrives in fragments is assembled, however it is cut.
use device_manager.Common.{
  ℕ, ◌+◌, ◌<◌, List, [], ◌∷◌, ◌++◌, Option, none, some, ◌≡◌, ◌≢◌, refl, ap, sym, ◌∙◌, arith, length,
  length-append, append-nil, append_assoc, ◌==◌, All, if◌then◌else◌,
}
use device_manager.Battery.Assembler.{
  Assembler, AssemblyStatus, incomplete, complete, initial, append, status_of, update_expected_size,
  size_of,
}

-- The length of a response, as its first three bytes give it: five bytes for an error response to
-- function 3, and otherwise the data's length with five bytes around it.
abbrev pub response_size : List ℕ → Option ℕ
response_size [] = none
response_size (x ∷ []) = none
response_size (x ∷ f ∷ []) = if f == 0x83 then some 5 else none
response_size (x ∷ f ∷ n ∷ rest) = if f == 0x83 then some 5 else some (n + 5)

-- The fragments handed over one by one, until `append` returns something but `kIncomplete`.
abbrev pub go_on :
    AssemblyStatus × Assembler
    → (Assembler → AssemblyStatus × Assembler)
    → AssemblyStatus × Assembler
go_on (incomplete, a) more = more a
go_on (s, a) more = (s, a)

unfoldable pub assemble : List (List ℕ) → Assembler → AssemblyStatus × Assembler
unfolding append
assemble [] a = (incomplete, a)
assemble (f ∷ fs) a = go_on (append f a) (assemble fs)

abbrev pub joined : List (List ℕ) → List ℕ
joined [] = []
joined (f ∷ fs) = f ++ joined fs

abbrev IsCoherent : Assembler → Type 0
IsCoherent a = a.expected_size ≡ response_size a.bytes

response_size-append :
    (xs ys : List ℕ) (n : ℕ) → response_size xs ≡ some n → response_size (xs ++ ys) ≡ some n
response_size-append [] ys n h = absurd cc
response_size-append (x ∷ []) ys n h = absurd cc
response_size-append (x ∷ f ∷ []) [] n h = h
response_size-append (x ∷ f ∷ []) (y ∷ ys) n h = ground arith
response_size-append (x ∷ f ∷ k ∷ xs) ys n h = h

-- The assembler that has taken `bs` in.
abbrev pub holding : List ℕ → Assembler
holding bs = record { bytes = bs; expected_size = response_size bs }

size_of-response : (bs : List ℕ) → size_of bs ≡ response_size bs
size_of-response [] = refl
size_of-response (x ∷ []) = refl
size_of-response (x ∷ f ∷ []) = refl
size_of-response (x ∷ f ∷ n ∷ rest) = ground arith

update-holding :
    (o : Option ℕ) (xs ys : List ℕ)
    → o ≡ response_size xs
    → update_expected_size (record { bytes = xs ++ ys; expected_size = o }) ≡ holding (xs ++ ys)
unfolding update_expected_size
update-holding none xs ys h =
    ap (λ (o : Option ℕ). record { bytes = xs ++ ys; expected_size = o })
      (size_of-response (xs ++ ys))
update-holding (some n) xs ys h =
    ap (λ (o : Option ℕ). record { bytes = xs ++ ys; expected_size = o })
      (sym (response_size-append xs ys n (sym h)))

pub append-holding :
    (xs ys : List ℕ)
    → ys ≢ []
    → append ys (holding xs) ≡ (status_of (response_size (xs ++ ys)) (xs ++ ys), holding (xs ++ ys))
unfolding append
append-holding xs [] h = absurd (h refl)
append-holding xs (y ∷ ys) h =
    ap (λ a. (status_of a.expected_size a.bytes, a)) (update-holding _ xs (y ∷ ys) refl)

status-complete :
    (r : List ℕ) → response_size r ≡ some (length r) → status_of (response_size r) r ≡ complete
unfolding status_of
status-complete r h = ap (λ o. status_of o r) h ∙ ground arith

part-short : (n : ℕ) (p : List ℕ) → length p < n → status_of (some n) p ≡ incomplete
unfolding status_of
part-short n p h = ground arith

status-part :
    (o : Option ℕ) (p ys : List ℕ)
    → response_size p ≡ o
    → response_size (p ++ ys) ≡ some (length (p ++ ys))
    → ys ≢ []
    → status_of o p ≡ incomplete
unfolding status_of
status-part none p ys e h ne = refl
status-part (some n) p [] e h ne = absurd (ne refl)
status-part (some n) p (y ∷ ys) e h ne =
    let same : some n ≡ some (length (p ++ (y ∷ ys))) =
      sym (response_size-append p (y ∷ ys) n e) ∙ h in
    part-short n p (ground (arith, length-append p (y ∷ ys)))

abbrev pub IsFragment : List ℕ → Type 0
IsFragment f = f ≢ []

joined-nonempty : (f : List ℕ) (fs : List (List ℕ)) → IsFragment f → joined (f ∷ fs) ≢ []
joined-nonempty [] fs h e = h refl
joined-nonempty (x ∷ f) fs h e = cc

assemble-holding :
    (f : List ℕ) (fs : List (List ℕ)) (bs : List ℕ)
    → All IsFragment (f ∷ fs)
    → let r = bs ++ joined (f ∷ fs) in
      response_size r ≡ some (length r) → assemble (f ∷ fs) (holding bs) ≡ (complete, holding r)
unfolding assemble
assemble-holding f [] bs v h =
    let p = bs ++ f in
    let e : bs ++ (f ++ []) ≡ p = rw append-nil in
    let h' : response_size p ≡ some (length p) =
      ap response_size (sym e) ∙ h ∙ ap (λ q. some (length q)) e in
    ap (λ s. go_on s (λ a. (incomplete, a))) (append-holding bs f v.0)
    ∙ ap (λ s. go_on (s, holding p) (λ a. (incomplete, a))) (status-complete p h')
    ∙ ap (λ q. (complete, holding q)) (sym e)
assemble-holding f (g ∷ fs) bs v h =
    let p = bs ++ f in
    let r = p ++ joined (g ∷ fs) in
    let e = append_assoc bs f (joined (g ∷ fs)) in
    let h' : response_size r ≡ some (length r) =
      ap response_size e ∙ h ∙ ap (λ q. some (length q)) (sym e) in
    ap (λ s. go_on s (assemble (g ∷ fs))) (append-holding bs f v.0)
    ∙ ap (λ s. go_on (s, holding p) (assemble (g ∷ fs)))
        (status-part _ p (joined (g ∷ fs)) refl h' (joined-nonempty g fs v.1.0))
    ∙ assemble-holding g fs p v.1 h'
    ∙ ap (λ q. (complete, holding q)) e

-- A response of the length that its first bytes give, cut into any non-empty fragments, is
-- complete at the last fragment and not before it, and the bytes are those of the response.
pub assemble-complete :
    (f : List ℕ) (fs : List (List ℕ))
    → All IsFragment (f ∷ fs)
    → response_size (joined (f ∷ fs)) ≡ some (length (joined (f ∷ fs)))
    → assemble (f ∷ fs) initial ≡ (complete, holding (joined (f ∷ fs)))
assemble-complete f fs = assemble-holding f fs []

-- ===== src/Util/Lists.antt =====
-- util.go, `splitCSV`: its entries.
use urnetwork_client.Base.{
  ◌≡◌, refl, ◌≢◌, inl, inr, false, List, [], ◌∷◌, ◌++◌, arith, Bytes, All, Bool-cases,
}
use urnetwork_client.Text.{is_empty, trim_space, split, join}
use urnetwork_client.Text.Blank.{
  is_blank-append, trim_space-blank, trim_space-of_blank, trim_space_idem,
}
use urnetwork_client.Text.Split.{Lacks, split-join}
use urnetwork_client.Util.{trimmed, split_csv}

-- An entry as the lists of the command line hold it: some text, trimmed, with no comma.
pub record IsEntry (p : Bytes) : Type 0 where
  pub nonempty : p ≢ []
  pub is_trimmed : trim_space p ≡ p
  pub no_comma : Lacks b',' p

trimmed-entries : (ps : List Bytes) → All (λ p. (p ≢ []) × (trim_space p ≡ p)) (trimmed ps)
unfolding trimmed
trimmed-entries [] = tt
trimmed-entries (p ∷ ps) = elim (Bool-cases (is_empty (trim_space p))) [
  | inl e ↦ rw e (trimmed-entries ps)
  | inr e ↦ rw e ((λ q. ground arith, trim_space_idem p), trimmed-entries ps)
]

-- Every entry of a split list is nonempty and trimmed.
split_csv-entries : (s : Bytes) → All (λ p. (p ≢ []) × (trim_space p ≡ p)) (split_csv s)
unfolding split_csv
split_csv-entries s = elim (Bool-cases (is_empty (trim_space s))) [
  | inl e ↦ rw e tt
  | inr e ↦ rw e (trimmed-entries (split s b','))
]

trimmed-of_entries : (ps : List Bytes) → All IsEntry ps → trimmed ps ≡ ps
unfolding trimmed
trimmed-of_entries [] h = refl
trimmed-of_entries (p ∷ ps) (h, hs) = elim (Bool-cases (is_empty p)) [
  | inl e ↦ absurd (h.nonempty (ground arith))
  | inr e ↦ rw (h.is_trimmed, e, trimmed-of_entries ps hs)
]

join-not_blank :
    (p : Bytes) (ps : List Bytes) → IsEntry p → is_empty (trim_space (join (p ∷ ps) b',')) ≡ false
unfolding join
join-not_blank p [] h =
    rw h.is_trimmed
      (elim (Bool-cases (is_empty p)) [ inl e ↦ absurd (h.nonempty (ground arith)) | inr e ↦ e ])
join-not_blank p (q ∷ ps) h =
    elim (Bool-cases (is_empty (trim_space (p ++ (b',' ∷ join (q ∷ ps) b','))))) [
      | inl e ↦ absurd (
          h.nonempty (
            ground (
              arith,
              h.is_trimmed,
              trim_space-of_blank p (is_blank-append p _ (trim_space-blank _ e)),
            )))
      | inr e ↦ e
    ]

Lacks-All : (ps : List Bytes) → All IsEntry ps → All (Lacks b',') ps
Lacks-All [] h = tt
Lacks-All (p ∷ ps) (h, hs) = (h.no_comma, Lacks-All ps hs)

-- A list of entries joined by commas is split into the same entries.
pub split_csv-join : (ps : List Bytes) → All IsEntry ps → split_csv (join ps b',') ≡ ps
unfolding split_csv
split_csv-join [] h = unfold join trim_space in refl
split_csv-join (p ∷ ps) (h, hs) =
    rw (join-not_blank p ps h, split-join (p ∷ ps) b',' (λ e. cc) (h.no_comma, Lacks-All ps hs))
      (trimmed-of_entries (p ∷ ps) (h, hs))

pub split_csv-nil : split_csv [] ≡ []
unfolding split_csv trim_space
split_csv-nil = refl

-- ===== src/Browser/Receipts/Listed.antt =====
-- What apps/dashboard/src/lib/receipts.ts lists after it has saved a receipt.
use fairproof_bcolbd.Prelude.{
  ℕ, ◌≡◌, ◌≢◌, refl, sym, ap, ◌∙◌, List, [], ◌∷◌, ◌++◌, All, Occurs, first, later, ◌⊎◌, Bool-cases,
  All-Occurs, All-of_Occurs, inl, inr, subst,
}
use fairproof_bcolbd.Prelude.Sort.{
  Reorder, same, keep, swap, chain, sort_by-Reorder, Occurs-Reorder,
}
use fairproof_bcolbd.Prelude.Texts.{text_eq, text_eq_refl, eq_of_text_eq, ne_of_text_eq}
use fairproof_bcolbd.Field.{Text}
use fairproof_bcolbd.Browser.{LocalStorage, Entry, Codec, assign, values, read_entries}
use fairproof_bcolbd.Browser.Entries.{Keeps, read_entries-write_entries}
use fairproof_bcolbd.Browser.Receipts.{BidReceipt, id_of, of_tender, save_receipt, receipts_for}

-- no `:` in the text
abbrev pub HasNoColon : Text → Type 0
HasNoColon s = All (λ (c : ℕ). c ≢ b':') s

-- Every receipt stands under its own id.
abbrev pub IsKeyed : List (Entry BidReceipt) → Type 0
IsKeyed entries =
    All (λ (e : Entry BidReceipt). e.key ≡ id_of e.value.tender_id e.value.nullifier) entries

split_injective :
    (s t a b : Text)
    → HasNoColon s
    → HasNoColon t
    → s ++ b':' ∷ a ≡ t ++ b':' ∷ b
    → (s ≡ t) × (a ≡ b)
split_injective [] [] a b v w h = (refl, cc)
split_injective [] (d ∷ t) a b v (q, w) h = absurd (q (cc))
split_injective (c ∷ s) [] a b (p, v) w h = absurd (p (cc))
split_injective (c ∷ s) (d ∷ t) a b (p, v) (q, w) h =
    let (st, ab) = split_injective s t a b v w (cc) in let cd : c ≡ d = cc in (rw (st, cd) refl, ab)

id_of-injective :
    (s t a b : Text) → HasNoColon s → HasNoColon t → id_of s a ≡ id_of t b → (s ≡ t) × (a ≡ b)
unfolding id_of
id_of-injective s t a b v w h = split_injective s t a b v w h

Occurs-assign :
    (r : BidReceipt) (key : Text) (entries : List (Entry BidReceipt))
    → Occurs r (values (assign key r entries))
unfolding values assign
Occurs-assign r key [] = first
Occurs-assign r key (e ∷ entries) = elim (Bool-cases (text_eq e.key key)) [
  | inl h ↦ rw h first
  | inr h ↦ rw h (later (Occurs-assign r key entries))
]

Occurs-cons : {A : Type 0} {a x : A} {xs : List A} → Occurs a (x ∷ xs) → (a ≡ x) ⊎ Occurs a xs
Occurs-cons first = inl refl
Occurs-cons (later o) = inr o

-- Assignment under another id keeps a receipt.
Occurs-assign_other :
    (r s : BidReceipt) (entries : List (Entry BidReceipt))
    → IsKeyed entries
    → id_of s.tender_id s.nullifier ≢ id_of r.tender_id r.nullifier
    → Occurs s (values entries)
    → Occurs s (values (assign (id_of r.tender_id r.nullifier) r entries))
unfolding values assign
Occurs-assign_other r s [] v ne o = elim o [ ]
Occurs-assign_other r s (e ∷ entries) (p, v) ne o =
    elim (Bool-cases (text_eq e.key (id_of r.tender_id r.nullifier))) [
      | inl h ↦ elim (Occurs-cons o) [
        | inl here ↦
            let key = eq_of_text_eq e.key (id_of r.tender_id r.nullifier) h in
            absurd (ne (ap (λ (x : BidReceipt). id_of x.tender_id x.nullifier) here ∙ sym p ∙ key))
        | inr there ↦ rw h (later there)
      ]
      | inr h ↦ elim (Occurs-cons o) [
        | inl here ↦ rw (h, here) first
        | inr there ↦ rw h (later (Occurs-assign_other r s entries v ne there))
      ]
    ]

Occurs-of_tender :
    (r : BidReceipt) (rs : List BidReceipt) → Occurs r rs → Occurs r (of_tender r.tender_id rs)
unfolding of_tender
Occurs-of_tender r [] o = elim o [ ]
Occurs-of_tender r (x ∷ rs) first = rw (text_eq_refl r.tender_id) first
Occurs-of_tender r (x ∷ rs) (later o) = elim (Bool-cases (text_eq x.tender_id r.tender_id)) [
  | inl h ↦ rw h (later (Occurs-of_tender r rs o))
  | inr h ↦ rw h (Occurs-of_tender r rs o)
]

Reorder-turned : {A : Type 0} {xs ys : List A} → Reorder xs ys → Reorder ys xs
Reorder-turned same = same
Reorder-turned (keep r) = keep (Reorder-turned r)
Reorder-turned swap = swap
Reorder-turned (chain r s) = chain (Reorder-turned s) (Reorder-turned r)

Occurs-receipts_for :
    (codec : Codec BidReceipt) (local : LocalStorage) (entries : List (Entry BidReceipt))
    (r : BidReceipt)
    → read_entries codec local ≡ entries
    → Occurs r (values entries)
    → Occurs r (receipts_for codec local r.tender_id)
unfolding receipts_for
Occurs-receipts_for codec local entries r e o =
    let o' = subst (λ (es : List (Entry BidReceipt)). Occurs r (values es)) (sym e) o in
    let found = of_tender r.tender_id (values (read_entries codec local)) in
    Occurs-Reorder (Reorder-turned (sort_by-Reorder (λ (x : BidReceipt). x.submission_index) found))
      (Occurs-of_tender r (values (read_entries codec local)) o')

-- the tender and the nullifier of the receipt
abbrev IsSameBid : BidReceipt → BidReceipt → Type 0
IsSameBid r s = (s.tender_id ≡ r.tender_id) × (s.nullifier ≡ r.nullifier)

IsSameBid-cases : (r s : BidReceipt) → IsSameBid r s ⊎ (IsSameBid r s → ⊥)
IsSameBid-cases r s = elim (Bool-cases (text_eq s.tender_id r.tender_id)) [
  | inl t ↦ elim (Bool-cases (text_eq s.nullifier r.nullifier)) [
    | inl n ↦ inl (eq_of_text_eq s.tender_id r.tender_id t, eq_of_text_eq s.nullifier r.nullifier n)
    | inr n ↦ inr (λ h. ne_of_text_eq s.nullifier r.nullifier n h.1)
  ]
  | inr t ↦ inr (λ h. ne_of_text_eq s.tender_id r.tender_id t h.0)
]

module _ (codec : Codec BidReceipt) (local : LocalStorage) where
  -- Where the browser keeps the new entries, a saved receipt is listed for its tender. Every receipt
  -- that was stored before has the same tender and nullifier, or is still listed for its own tender. The stored receipts stand under their own ids, and no tender id holds a colon.
  pub receipts_for-save_receipt :
      (r : BidReceipt)
      → IsKeyed (read_entries codec local)
      → Keeps codec local (assign (id_of r.tender_id r.nullifier) r (read_entries codec local))
      → HasNoColon r.tender_id
      → All (λ s. HasNoColon s.tender_id) (values (read_entries codec local))
      → Occurs r (receipts_for codec (save_receipt codec local r) r.tender_id)
        × All
            (λ s.
              ((s.tender_id ≡ r.tender_id) × (s.nullifier ≡ r.nullifier))
              ⊎ Occurs s (receipts_for codec (save_receipt codec local r) s.tender_id))
            (values (read_entries codec local))
  unfolding save_receipt
  receipts_for-save_receipt r keyed k v w =
      let before = read_entries codec local in
      let after = assign (id_of r.tender_id r.nullifier) r before in
      let restored = read_entries-write_entries codec local after k in
      let listed = Occurs-receipts_for codec (save_receipt codec local r) after in
      (
        listed r restored (Occurs-assign r (id_of r.tender_id r.nullifier) before),
        All-of_Occurs _ (values before) (λ s o. elim (IsSameBid-cases r s) [
          | inl replaced ↦ inl replaced
          | inr other ↦
              let plain = All-Occurs (λ x. HasNoColon x.tender_id) s (values before) w o in
              let ne : id_of s.tender_id s.nullifier ≢ id_of r.tender_id r.nullifier = λ e.
                other (id_of-injective s.tender_id r.tender_id s.nullifier r.nullifier plain v e) in
              inr (listed s restored (Occurs-assign_other r s before keyed ne o))
        ]),
      )

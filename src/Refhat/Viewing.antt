-- ===== src/Refhat/Viewing.antt =====
-- `refhat_view`: every live bucket has its place in the view, and the view fits its allocation.
use hatrack.Prelude.{
  ℕ, zero, suc, ◌<◌, ◌≡◌, ◌≢◌, ◌↔◌, ◌⊎◌, inl, inr, refl, arith, Bool, true, false, if◌then◌else◌,
  List, [], ◌∷◌, length, count_by, Bool-cases, ◌∙◌, sym,
}
use hatrack.Common.{View}
use hatrack.Refhat.{Bucket, bucket_at, is_live, Refhat, collect, view}
use hatrack.Refhat.Valid.{IsValid}

abbrev pub entry : Bucket → View
entry b = record { item = b.item; sort_epoch = b.epoch }

abbrev pub Has : View → List View → Type 0
Has w [] = ⊥
Has w (x ∷ xs) = (x ≡ w) ⊎ Has w xs

length-collect : (bs : List Bucket) → length (collect bs) ≡ count_by is_live bs
unfolding collect count_by
length-collect [] = refl
length-collect (b ∷ bs) = ground (arith, length-collect bs)

-- `w` is the item and the epoch of a bucket that is reserved and not deleted.
abbrev pub IsListed : View → List Bucket → Type 0
IsListed w bs =
    (i : ℕ) × (i < length bs)
    × ((bucket_at bs i).hv ≢ 0)
    × ((bucket_at bs i).epoch ≢ 0)
    × (entry (bucket_at bs i) ≡ w)

is_live_iff : (b : Bucket) → (is_live b ≡ true) ↔ ((b.hv ≢ 0) × (b.epoch ≢ 0))
is_live_iff b = (λ e. ground arith, λ r. ground (arith, r.0, r.1))

IsListed-cons : (w : View) (b : Bucket) (bs : List Bucket) → IsListed w bs → IsListed w (b ∷ bs)
IsListed-cons w b bs (i, l, r, e, f) = (suc i, omega arith, r, e, f)

Has-IsListed : (w : View) (bs : List Bucket) → Has w (collect bs) → IsListed w bs
unfolding collect
Has-IsListed w [] h = absurd h
Has-IsListed w (b ∷ bs) h = split (is_live b) refl h (Has-IsListed w bs)
  where
    split :
        (live : Bool)
        → is_live b ≡ live
        → Has w (if live then entry b ∷ collect bs else collect bs)
        → (Has w (collect bs) → IsListed w bs)
        → IsListed w (b ∷ bs)
    split true e (inl same) rec =
        let (reserved, kept) = (is_live_iff b).0 e in (0, omega arith, reserved, kept, same)
    split true e (inr later) rec = IsListed-cons w b bs (rec later)
    split false e h rec = IsListed-cons w b bs (rec h)

IsListed-Has :
    (w : View) (bs : List Bucket) (i : ℕ)
    → i < length bs
    → is_live (bucket_at bs i) ≡ true
    → entry (bucket_at bs i) ≡ w
    → Has w (collect bs)
unfolding collect
IsListed-Has w [] i l e f = absurd (omega arith)
IsListed-Has w (b ∷ bs) zero l e f = rw e (inl f)
IsListed-Has w (b ∷ bs) (suc i) l e f =
    let later = IsListed-Has w bs i (omega arith) e f in
    elim (Bool-cases (is_live b)) [ inl live ↦ rw live (inr later) | inr dead ↦ rw dead later ]

-- The unsorted view holds `w` exactly when `w` is the item and the epoch of a bucket whose
-- hash value and epoch are not 0.
pub collect_iff : (bs : List Bucket) (w : View) → Has w (collect bs) ↔ IsListed w bs
collect_iff bs w = (
  Has-IsListed w bs,
  λ r. IsListed-Has w bs r.0 r.1 ((is_live_iff (bucket_at bs r.0)).1 (r.2, r.3)) r.4,
)

-- `refhat_view` on a valid table yields as many entries as `num` says, which is what it allocates.
-- Of `qsort` this takes that it keeps the number of elements.
view-length :
    (qsort : (View → View → ℕ) → List View → List View)
    → ((cmp : View → View → ℕ) (ws : List View) → length (qsort cmp ws) ≡ length ws)
    → {t : Refhat} (sort : Bool) → IsValid t
    → let (items, num) = view qsort t sort in (length items ≡ num) × (num ≡ t.item_count)
unfolding view
view-length qsort keeps {t} true v =
    (keeps _ (collect t.buckets) ∙ length-collect t.buckets ∙ sym v.items, refl)
view-length qsort keeps {t} false v = (length-collect t.buckets ∙ sym v.items, refl)

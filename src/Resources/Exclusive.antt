-- ===== src/Resources/Exclusive.antt =====
-- The leases of a resource (resource_gate.py, `_acquire_resource`), over callers of any processes.
use chatbot_win.Prelude.{
  ℕ, Bool, true, false, not, ◌&&◌, ◌||◌, List, [], ◌∷◌, ◌+◌, ◌<◌, ◌≤◌, ◌≡◌, inl, inr, refl, sym, ap,
  ◌∙◌, arith, length, nat_eq, All, Bool-cases,
}
use chatbot_win.Resources.Slots.{
  acquire_slot, release_slot, Leasing, Event, acquires, releases, holds, without, with_lease,
  lease_step, lease_run, no_leases,
}
use chatbot_win.Resources.Leases.{
  locked_at, locked_slots, acquire_slot-cases, release-locked, release-length, release-one_less,
  locked_slots-le, locked_at-lt,
}

-- No two leases are of the same slot.
abbrev pub Exclusive : List ℕ → Type 0
Exclusive [] = Unit
Exclusive (i ∷ is) = (holds i is ≡ false) × Exclusive is

holds-without :
    (i j : ℕ) (is : List ℕ)
    → Exclusive is
    → holds j (without i is) ≡ (holds j is && not (nat_eq j i))
holds-without i j [] e = refl
holds-without i j (k ∷ ks) (n, e) = ground (arith, holds-without i j ks e)

without-Exclusive : (i : ℕ) (is : List ℕ) → Exclusive is → Exclusive (without i is)
without-Exclusive i [] e = tt
without-Exclusive i (k ∷ ks) (n, e) =
    ground (arith, holds-without i k ks e, without-Exclusive i ks e)

length-without : (i : ℕ) (is : List ℕ) → holds i is ≡ true → length (without i is) + 1 ≡ length is
length-without i [] h = cc
length-without i (k ∷ ks) h = ground (arith, length-without i ks)

record Sound (most : ℕ) (p : Leasing) : Type 0 where
  pub exclusive : Exclusive p.leases
  pub locked : (i : ℕ) → locked_at i p.slots ≡ holds i p.leases
  pub counted : locked_slots p.slots ≡ length p.leases
  pub files : length p.slots ≤ most

-- The `max_parallel` of a caller is at most this.
abbrev pub AtMost : ℕ → Event → Type 0
AtMost most (acquires n) = n ≤ most
AtMost most (releases i) = Unit

Sound-acquires :
    (most n : ℕ) (p : Leasing)
    → n ≤ most
    → Sound most p
    → Sound most (with_lease p (acquire_slot n p.slots))
Sound-acquires most n p b s = elim (acquire_slot-cases n p.slots) [
  | inl e ↦ rw e s
  | inr (i, after, e, l) ↦ rw e (record {
    exclusive = (sym (s.locked i) ∙ l.was_free, s.exclusive);
    locked = λ j. l.locked j ∙ ap (λ h. nat_eq j i || h) (s.locked j);
    counted = omega (arith, l.one_more, s.counted);
    files = elim l.files [ inl same ↦ omega (arith, s.files) | inr few ↦ omega arith ];
  })
]

Sound-releases :
    (most i : ℕ) (p : Leasing)
    → holds i p.leases ≡ true
    → Sound most p
    → Sound most (record { slots = release_slot i p.slots; leases = without i p.leases })
Sound-releases most i p h s = record {
  exclusive = without-Exclusive i p.leases s.exclusive;
  locked = λ j.
      release-locked i j p.slots
      ∙ ap (λ b. b && not (nat_eq j i)) (s.locked j)
      ∙ sym (holds-without i j p.leases s.exclusive);
  counted =
      omega (
        arith,
        release-one_less i p.slots (s.locked i ∙ h),
        length-without i p.leases h,
        s.counted,
      );
  files = omega (arith, release-length i p.slots, s.files);
}

lease_step-Sound :
    (most : ℕ) (e : Event) (p : Leasing)
    → AtMost most e
    → Sound most p
    → Sound most (lease_step e p)
unfolding lease_step
lease_step-Sound most (acquires n) p b s = Sound-acquires most n p b s
lease_step-Sound most (releases i) p b s = elim (Bool-cases (holds i p.leases)) [
  | inl h ↦ rw h (Sound-releases most i p h s)
  | inr h ↦ rw h s
]

lease_run-Sound :
    (most : ℕ) (es : List Event) (p : Leasing)
    → All (AtMost most) es
    → Sound most p
    → Sound most (lease_run es p)
unfolding lease_run
lease_run-Sound most [] p b s = s
lease_run-Sound most (e ∷ es) p (b, bs) s =
    lease_run-Sound most es (lease_step e p) bs (lease_step-Sound most e p b s)

no_leases-Sound : (most : ℕ) → Sound most no_leases
no_leases-Sound most = record {
  exclusive = tt;
  locked = λ i. refl;
  counted = refl;
  files = omega arith;
}

leases-lt :
    (most : ℕ) (slots : List Bool) (is : List ℕ)
    → length slots ≤ most
    → ((i : ℕ) → holds i is ≡ true → locked_at i slots ≡ true)
    → All (λ i. i < most) is
leases-lt most slots [] b h = tt
leases-lt most slots (i ∷ is) b h = (
  omega (arith, locked_at-lt i slots (h i (ground arith))),
  leases-lt most slots is b (λ j e. h j (ground arith)),
)

-- However callers of any processes come and go, each with a `max_parallel` of at most `most`: no two
-- leases of the resource are of the same slot, each is of a slot below `most`, there are at most `most`
-- of them, and a slot file is locked just where its lease is out.
pub lease_run-Exclusive :
    (most : ℕ) (es : List Event)
    → All (AtMost most) es
    → Exclusive (lease_run es no_leases).leases
      × All (λ i. i < most) (lease_run es no_leases).leases
      × (length (lease_run es no_leases).leases ≤ most)
      × ((i : ℕ)
          → locked_at i (lease_run es no_leases).slots ≡ holds i (lease_run es no_leases).leases)
lease_run-Exclusive most es b =
    let s = lease_run-Sound most es no_leases b (no_leases-Sound most) in
    let p = lease_run es no_leases in
    (
      s.exclusive,
      leases-lt most p.slots p.leases s.files (λ i h. s.locked i ∙ h),
      omega (arith, s.counted, s.files, locked_slots-le p.slots),
      s.locked,
    )

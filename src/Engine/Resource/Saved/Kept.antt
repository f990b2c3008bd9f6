-- ===== src/Engine/Resource/Saved/Kept.antt =====
-- A suspension across a restart (tasklite/engine/resource.py).
use tasklite.Common.{
  ℕ, ◌+◌, ◌-◌, ◌<◌, String, false, ◌≡◌, refl, sym, ◌∙◌, subst, Bool-cases, Option, none, some, [],
  ◌∷◌, Dict, lookup, insert, keys, contains, IsDistinct, lookup-insert, has-insert, contains-keys,
  eq_string, ==_iff, ◌==◌, arith, leb, Option-cases, inl, inr,
}
use tasklite.Models.Job.{pos}
use tasklite.Engine.Resource.{Resource, millis, suspend, suspended_until}
use tasklite.Engine.Resource.Saved.{
  wall_deadline, record_deadline, collect_suspensions, restore_entry, restore_suspensions, stored,
}

insert-IsDistinct :
    (k : String) (v : ℕ) (d : Dict String ℕ)
    → IsDistinct (keys d)
    → IsDistinct (keys (insert k v d))
unfolding keys insert contains
insert-IsDistinct k v [] h = (refl, tt)
insert-IsDistinct k v ((j, w) ∷ d) h = ground (
  arith,
  insert-IsDistinct k v d,
  contains-keys j d,
  contains-keys j (insert k v d),
  has-insert j k v d,
  ==_iff j k,
  ==_iff k j,
)

record_deadline-IsDistinct :
    (name : String) (o : Option ℕ) (saved : Dict String ℕ)
    → IsDistinct (keys saved)
    → IsDistinct (keys (record_deadline name o saved))
unfolding record_deadline
record_deadline-IsDistinct name none saved h = h
record_deadline-IsDistinct name (some wall) saved h = insert-IsDistinct name wall saved h

lookup-record_deadline :
    (name other : String) (o : Option ℕ) (saved : Dict String ℕ)
    → (other == name) ≡ false
    → lookup name (record_deadline other o saved) ≡ lookup name saved
unfolding record_deadline
lookup-record_deadline name other none saved h = refl
lookup-record_deadline name other (some wall) saved h =
    ground (arith, lookup-insert name other wall saved)

collect-IsDistinct :
    (clock : String → ℕ) (now_mono now_wall : ℕ) (rs : Dict String Resource) (saved : Dict String ℕ)
    → IsDistinct (keys saved)
    → IsDistinct (keys (collect_suspensions clock now_mono now_wall rs saved))
unfolding collect_suspensions
collect-IsDistinct clock now_mono now_wall [] saved h = h
collect-IsDistinct clock now_mono now_wall ((name, r) ∷ more) saved h =
    collect-IsDistinct clock now_mono now_wall more _ (
      record_deadline-IsDistinct name
        (wall_deadline now_mono now_wall (suspended_until (clock name) r)) saved h)

collect-lookup_other :
    (clock : String → ℕ) (now_mono now_wall : ℕ) (rs : Dict String Resource) (saved : Dict String ℕ)
    (name : String)
    → contains name (keys rs) ≡ false
    → lookup name (collect_suspensions clock now_mono now_wall rs saved) ≡ lookup name saved
unfolding collect_suspensions keys contains
collect-lookup_other clock now_mono now_wall [] saved name h = refl
collect-lookup_other clock now_mono now_wall ((other, r) ∷ more) saved name h =
    let o = wall_deadline now_mono now_wall (suspended_until (clock other) r) in
    collect-lookup_other clock now_mono now_wall more (record_deadline other o saved) name
      (ground arith)
    ∙ lookup-record_deadline name other o saved (ground arith)

collect-lookup :
    (clock : String → ℕ) (now_mono now_wall : ℕ) (rs : Dict String Resource) (saved : Dict String ℕ)
    (name : String) (d : ℕ) {r : Resource}
    → IsDistinct (keys rs)
    → lookup name rs ≡ some r
    → suspended_until (clock name) r ≡ some d
    → now_mono < d
    → lookup name (collect_suspensions clock now_mono now_wall rs saved)
      ≡ some (now_wall + (d - now_mono))
unfolding collect_suspensions keys lookup wall_deadline record_deadline
collect-lookup clock now_mono now_wall [] saved name d {r} distinct found until left = cc
collect-lookup clock now_mono now_wall ((other, r') ∷ more) saved name d {r} distinct found until
      left =
    let o = wall_deadline now_mono now_wall (suspended_until (clock other) r') in
    elim (Bool-cases (other == name)) [
      | inl same ↦
          let here : other ≡ name = (==_iff other name).0 same in
          let mine : r' ≡ r = ground (arith, same) in
          let due : o ≡ some (now_wall + (d - now_mono)) =
            subst
              (λ n.
                wall_deadline now_mono now_wall (suspended_until (clock n) r')
                ≡ some (now_wall + (d - now_mono)))
              (sym here) (rw (mine, until) (ground arith)) in
          let absent : contains name (keys more) ≡ false =
            subst (λ n. contains n (keys more) ≡ false) here distinct.0 in
          collect-lookup_other clock now_mono now_wall more (record_deadline other o saved) name
            absent
          ∙ rw (due, record_deadline)
              (ground (arith, lookup-insert name other (now_wall + (d - now_mono)) saved))
      | inr apart ↦
          collect-lookup clock now_mono now_wall more (record_deadline other o saved) name d {r = r}
            distinct.1 (ground (arith, apart)) until left
    ]

restore_entry_other :
    (now now_wall : ℕ) (other name : String) (wall : ℕ) (rs : Dict String Resource)
    → (other == name) ≡ false
    → (rs' : Dict String Resource) × (restore_entry now now_wall other (millis (pos wall)) rs
        ≡ some rs')
      × (lookup name rs' ≡ lookup name rs)
unfolding restore_entry
restore_entry_other now now_wall other name wall rs h = elim (Bool-cases (leb wall now_wall)) [
  | inl over ↦ (rs, rw (over, restore_entry) refl, refl)
  | inr left ↦ elim (Option-cases (lookup other rs)) [
    | inl gone ↦ (rs, rw (left, restore_entry, gone) refl, refl)
    | inr (r, there) ↦
        let r' = suspend now (millis (pos (wall - now_wall))) r in
        (
          insert other r' rs,
          rw (left, restore_entry, there) refl,
          ground (arith, lookup-insert name other r' rs),
        )
  ]
]

restore_entry_mine :
    (now now_wall : ℕ) (name : String) (wall : ℕ) (rs : Dict String Resource) {r : Resource}
    → now_wall < wall
    → lookup name rs ≡ some r
    → restore_entry now now_wall name (millis (pos wall)) rs
      ≡ some (insert name (suspend now (millis (pos (wall - now_wall))) r) rs)
unfolding restore_entry
restore_entry_mine now now_wall name wall rs h there =
    let left : leb wall now_wall ≡ false = ground arith in rw (left, restore_entry, there) refl

restore-lookup_other :
    (clock : String → ℕ) (now_wall : ℕ) (saved : Dict String ℕ) (rs : Dict String Resource)
    (name : String)
    → contains name (keys saved) ≡ false
    → lookup name (restore_suspensions clock now_wall (stored saved) rs).1 ≡ lookup name rs
unfolding restore_suspensions contains keys
restore-lookup_other clock now_wall [] rs name h = refl
restore-lookup_other clock now_wall ((other, wall) ∷ more) rs name h =
    let (rs', e, same) =
      restore_entry_other (clock other) now_wall other name wall rs (ground arith) in
    rw (e, restore_suspensions)
      (restore-lookup_other clock now_wall more rs' name (ground arith) ∙ same)

restore-lookup :
    (clock : String → ℕ) (now_wall : ℕ) (saved : Dict String ℕ) (rs : Dict String Resource)
    (name : String) (wall : ℕ) {r : Resource}
    → IsDistinct (keys saved)
    → lookup name saved ≡ some wall
    → now_wall < wall
    → lookup name rs ≡ some r
    → lookup name (restore_suspensions clock now_wall (stored saved) rs).1
      ≡ some (suspend (clock name) (millis (pos (wall - now_wall))) r)
unfolding restore_suspensions keys lookup
restore-lookup clock now_wall [] rs name wall distinct found left there = cc
restore-lookup clock now_wall ((other, w) ∷ more) rs name wall {r} distinct found left there =
    elim (Bool-cases (other == name)) [
      | inl same ↦
          let here : other ≡ name = (==_iff other name).0 same in
          let mine : w ≡ wall = ground (arith, same) in
          let r' = suspend (clock other) (millis (pos (w - now_wall))) r in
          let e : restore_entry (clock other) now_wall other (millis (pos w)) rs
              ≡ some (insert other r' rs) =
            restore_entry_mine (clock other) now_wall other w rs (rw mine left) (rw here there) in
          let absent : contains name (keys more) ≡ false =
            subst (λ n. contains n (keys more) ≡ false) here distinct.0 in
          rw (e, restore_suspensions)
            (restore-lookup_other clock now_wall more (insert other r' rs) name absent
              ∙ (rw (lookup-insert, same, here, mine) refl))
      | inr apart ↦
          let (rs', e, same) = restore_entry_other (clock other) now_wall other name w rs apart in
          rw (e, restore_suspensions)
            (restore-lookup clock now_wall more rs' name wall {r = r} distinct.1
              (ground (arith, apart)) left (same ∙ there))
    ]

-- Where no name of a resource is repeated: a suspension that lasts at `now_mono` until `d`, saved and
-- read again in a new process that has a resource of that name, while some of it is left, suspends
-- this resource for the time that is left on the wall clock, and no other entry interferes.
pub collect-restore :
    (clock : String → ℕ) (now_mono saved_wall : ℕ) (before : Dict String Resource)
    (clock' : String → ℕ) (now_wall : ℕ) (after : Dict String Resource) (name : String) (d : ℕ)
    {r r' : Resource}
    → IsDistinct (keys before)
    → lookup name before ≡ some r
    → suspended_until (clock name) r ≡ some d
    → now_mono < d
    → now_wall < saved_wall + (d - now_mono)
    → lookup name after ≡ some r'
    → lookup name
        (restore_suspensions clock' now_wall
          (stored (collect_suspensions clock now_mono saved_wall before []))
          after).1
      ≡ some (suspend (clock' name) (millis (pos (saved_wall + (d - now_mono) - now_wall))) r')
collect-restore clock now_mono saved_wall before clock' now_wall after name d {r} {r'} distinct
      found until left still there =
    let saved = collect_suspensions clock now_mono saved_wall before [] in
    restore-lookup clock' now_wall saved after name (saved_wall + (d - now_mono)) {r = r'}
      (collect-IsDistinct clock now_mono saved_wall before [] (unfold keys in tt))
      (collect-lookup clock now_mono saved_wall before [] name d {r = r} distinct found until left)
      still there

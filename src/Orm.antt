-- ===== src/Orm.antt =====
-- The calls of gorm (vendor/github.com/jinzhu/gorm) that the program makes, as an interface: the
-- program is modelled over any implementation of it. A table is opaque; `rows` is what it holds.
-- While the database is up a call does what gorm documents; when it is down nothing is assumed.
pub mod Memory
use photon_monitoring.Base.{
  ℕ, ◌≡◌, Bool, true, false, not, Option, none, some, List, [], ◌∷◌, ◌++◌, Text, find?, select,
  upsert, adjust, if◌then◌else◌,
}

-- How a query ends; `not_found` is gorm.ErrRecordNotFound.
pub data Fetch {ℓ} (A : Type ℓ) : Type ℓ where
  found : A → Fetch A
  not_found : Fetch A
  failed : Text → Fetch A

abbrev pub pick {ℓ} : {A : Type ℓ} → Option A → Fetch A
pick none = not_found
pick (some a) = found a

abbrev pub drop_where : {R : Type 0} → (R → Bool) → List R → List R
drop_where q = select (λ r. not (q r))

pub record Gorm : Type 1 where
  pub Table : Type 0 → Type 0
  pub rows : {R : Type 0} → Table R → List R
  pub up : {R : Type 0} → Table R → Bool
  -- db.Where(q).First(&r), and db.Where(q).Find(&r) into one record
  pub first : {R : Type 0} → (R → Bool) → Table R → Fetch R
  -- db.Where(q).Find(&rs) into a slice
  pub find : {R : Type 0} → (R → Bool) → Table R → Fetch (List R)
  -- db.Save(&r), where the test compares primary keys with that of r
  pub save : {R : Type 0} → (R → Bool) → R → Table R → Option Text × Table R
  -- db.Save(&r) with a blank primary key, which the database then assigns
  pub create : {R : Type 0} → R → Table R → Option Text × Table R
  -- db.Model(&r).UpdateColumn(…)
  pub update : {R : Type 0} → (R → Bool) → (R → R) → Table R → Option Text × Table R
  -- db.Delete(&r)
  pub delete : {R : Type 0} → (R → Bool) → Table R → Option Text × Table R
  -- tx.Commit() and tx.Rollback(), from the table at Begin and the table now
  pub commit : {R : Type 0} → Table R → Table R → Table R
  pub rollback : {R : Type 0} → Table R → Table R → Table R

-- What gorm documents of these calls, on a table that is up.
pub record IsDocumented (g : Gorm) : Type 1 where
  pub first_up :
      {R : Type 0} (q : R → Bool) (t : g.Table R)
      → g.up t ≡ true
      → g.first q t ≡ pick (find? q (g.rows t))
  pub find_up :
      {R : Type 0} (q : R → Bool) (t : g.Table R)
      → g.up t ≡ true
      → g.find q t ≡ found (select q (g.rows t))
  pub save_up :
      {R : Type 0} (q : R → Bool) (r : R) (t : g.Table R)
      → g.up t ≡ true
      → let (e, t') = g.save q r t in
        (e ≡ none) × (g.rows t' ≡ upsert q r (g.rows t)) × (g.up t' ≡ true)
  pub create_up :
      {R : Type 0} (r : R) (t : g.Table R)
      → g.up t ≡ true
      → let (e, t') = g.create r t in
        (e ≡ none) × (g.rows t' ≡ g.rows t ++ r ∷ []) × (g.up t' ≡ true)
  pub update_up :
      {R : Type 0} (q : R → Bool) (f : R → R) (t : g.Table R)
      → g.up t ≡ true
      → let (e, t') = g.update q f t in
        (e ≡ none) × (g.rows t' ≡ adjust q f (g.rows t)) × (g.up t' ≡ true)
  pub delete_up :
      {R : Type 0} (q : R → Bool) (t : g.Table R)
      → g.up t ≡ true
      → let (e, t') = g.delete q t in
        (e ≡ none) × (g.rows t' ≡ drop_where q (g.rows t)) × (g.up t' ≡ true)
  pub commit_up :
      {R : Type 0} (before after : g.Table R)
      → g.up after ≡ true
      → (g.rows (g.commit before after) ≡ g.rows after) × (g.up (g.commit before after) ≡ true)
  pub rollback_up :
      {R : Type 0} (before after : g.Table R)
      → g.up after ≡ true
      → (g.rows (g.rollback before after) ≡ g.rows before) × (g.up (g.rollback before after) ≡ true)

-- The condition that gorm takes from a field of a struct: none, if the field is blank.
abbrev pub unless_blank : {R : Type 0} → Bool → (R → Bool) → R → Bool
unless_blank blank q r = if blank then true else q r

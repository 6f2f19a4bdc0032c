-- ===== src/Store.antt =====
-- What a service sees of a table through its TypeORM repository, and of the bucket of S3. Neither is
-- code of the repository, so both are parameters with the behaviour that they document.
pub mod Guards
pub mod Memory
pub mod Unique
use harvestledger.Base.{
  ℕ, ◌+◌, ◌≡◌, ◌≢◌, String, Bool, true, false, Option, none, some, List, length, All, ◌==◌,
  if◌then◌else◌,
}
use mathlib.Core.Option

-- `S` is the state of the table and `E` the entity; `none` of a write is a query that failed.
pub record Table (S E : Type 0) : Type 0 where
  -- `findOne({ where: { id } })`
  pub find_one : ℕ → S → Option E
  -- `find({ where })`
  pub find : (E → Bool) → S → List E
  -- `save(create(…))`: the entity as saved, with the id that the table gave to it
  pub insert : (ℕ → E) → S → Option (E × S)
  -- `save(entity)` of an entity that was loaded
  pub save : E → S → Option S
  -- `update(id, values)`
  pub update : ℕ → (E → E) → S → Option S
  -- `remove(entity)`
  pub remove : E → S → Option S

abbrev pub bit : Bool → ℕ
bit true = 1
bit false = 0

pub record IsTable {S E : Type 0} (key : E → ℕ) (t : Table S E) : Type 0 where
  pub key_found : (k : ℕ) (s : S) (e : E) → t.find_one k s ≡ some e → key e ≡ k
  pub find_sound :
      (p : E → Bool) (s : S)
      → All (λ e. (p e ≡ true) × (t.find_one (key e) s ≡ some e)) (t.find p s)
  pub find_complete :
      (p : E → Bool) (s : S) (k : ℕ) (e : E)
      → t.find_one k s ≡ some e
      → p e ≡ true
      → 0 ≢ length (t.find p s)
  pub insert_key : (mk : ℕ → E) (s s' : S) (e : E) → t.insert mk s ≡ some (e, s') → e ≡ mk (key e)
  pub insert_fresh :
      (mk : ℕ → E) (s s' : S) (e : E) → t.insert mk s ≡ some (e, s') → t.find_one (key e) s ≡ none
  pub find_one-insert :
      (mk : ℕ → E) (s s' : S) (e : E)
      → t.insert mk s ≡ some (e, s')
      → (k : ℕ) → t.find_one k s' ≡ (if k == key e then some e else t.find_one k s)
  pub count-insert :
      (mk : ℕ → E) (s s' : S) (e : E)
      → t.insert mk s ≡ some (e, s')
      → (p : E → Bool) → length (t.find p s') ≡ length (t.find p s) + bit (p e)
  pub find_one-save :
      (e : E) (s s' : S)
      → t.save e s ≡ some s'
      → (k : ℕ) → t.find_one k s' ≡ (if k == key e then some e else t.find_one k s)
  pub find_one-update :
      (j : ℕ) (f : E → E) (s s' : S)
      → t.update j f s ≡ some s'
      → (k : ℕ)
      → t.find_one k s' ≡ (if k == j then Option.map f (t.find_one k s) else t.find_one k s)
  pub find_one-remove :
      (e : E) (s s' : S)
      → t.remove e s ≡ some s'
      → (k : ℕ) → t.find_one k s' ≡ (if k == key e then none else t.find_one k s)

-- The S3 client: `O` is the state of the bucket, `File` an upload and `Data` a body in base 64.
pub data Fetched (Data : Type 0) : Type 0 where
  body : Data → Fetched Data
  no_such_key : Fetched Data
  failure : String → Fetched Data

pub record Bucket (O File Data : Type 0) : Type 0 where
  -- `new Upload(…).done()`: the text of the error, if it fails
  pub upload : String → File → O → Option String × O
  -- `send(new GetObjectCommand(…))`, and the body's stream read to its end
  pub get_object : String → O → Fetched Data

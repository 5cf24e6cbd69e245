-- ===== src/Objects/Storage.antt =====
-- FidoAuth/pico-keys-sdk/src/fs/file.c as its clients see it: the functions on files that
-- object_store.c and object_store_txn.c call, over a store of which nothing is known.
use key_wallet.Base.{ℕ, List, Option, Bool, true, false}
use key_wallet.Bytes.{Status}

-- A result, or the status code of its failure.
pub data Outcome (A : Type 0) : Type 0 where
  failed : Status → Outcome A
  done : A → Outcome A

infixl 5 ◌>>=◌ ◌>>◌
abbrev pub ◌>>=◌ : {A B : Type 0} → Outcome A → (A → Outcome B) → Outcome B
failed e >>= f = failed e
done a >>= f = f a

abbrev pub ◌>>◌ : {B : Type 0} → Outcome (Unit {0}) → Outcome B → Outcome B
m >> k = m >>= λ _. k

-- A test that the code leaves by when it fails.
abbrev pub check : Bool → Status → Outcome (Unit {0})
check true e = done tt
check false e = failed e

pub record Files : Type 1 where
  pub Store : Type 0
  pub File : Type 0
  -- `file_search`, `file_has_data`, `file_get_size`, `file->fid`
  pub search : ℕ → Store → Option File
  pub has_data : File → Store → Bool
  pub get_size : File → Store → ℕ
  pub fid_of : File → Store → ℕ
  -- `file_read_at`: offset and length
  pub read_at : File → ℕ → ℕ → Store → Outcome (List ℕ)
  -- `file_new`, `file_put_data`, `file_delete`, `file_delete_no_commit`
  pub create : ℕ → Store → Option File × Store
  pub put_data : File → List ℕ → Store → Status × Store
  pub delete : File → Store → Status × Store
  pub delete_no_commit : File → Store → Status × Store
  -- `file_search_by_fid` with SPECIFY_ANY finds a static entry
  pub is_static : ℕ → Bool
  -- `flash_commit_sync` with a timeout
  pub commit_sync : ℕ → Store → Bool × Store
  -- `calloc` of so many bytes succeeds
  pub allocates : ℕ → Store → Bool

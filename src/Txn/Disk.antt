-- ===== src/Txn/Disk.antt =====
-- What object_store_txn.c relies on the file table (FidoAuth/pico-keys-sdk/src/fs/file.c) for, and what
-- its small steps on one file leave alone.
use key_wallet.Base.{
  ℕ, suc, ◌+◌, ◌≤◌, ◌<◌, ◌≡◌, ◌≢◌, ◌⊎◌, inl, inr, refl, sym, ap, ◌∙◌, Bool, true, false, List,
  Option, none, some, length, take, drop, ◌++◌, Bool-cases, arith,
}
use key_wallet.Bytes.{Status, ok}
use key_wallet.Policy.{is_ok}
use key_wallet.Objects.Storage.{Files, Outcome, failed, done}
use key_wallet.Txn.Frame.{SameFile}
use key_wallet.Txn.Crash.{NoData, IsSpoiled}
use key_wallet.Txn.Write.{
  then_do, remove_found, remove_file, put_new, replace_file, synced, sync, write_sealed,
}

pub is_ok-true : (e : Status) → is_ok e ≡ true → e ≡ ok
is_ok-true e h = ground arith

pub is_ok-false : (e : Status) → is_ok e ≡ false → e ≢ ok
is_ok-false e h = λ p. cc

module _ ⦃files : Files⦄ where
  open files use {
    Store, File, search, has_data, get_size, read_at, create, put_data, delete_no_commit, is_static,
    commit_sync,
  }

  -- An identifier of a file that is neither static nor EF_META, the file of the metadata, and that is
  -- not one of the two that `file_new` refuses or leaves for free places.
  abbrev pub IsPlain : ℕ → Type 0
  IsPlain fid = (fid ≢ 0) × (fid ≢ 0xffff) × (fid ≢ 0xe010) × (is_static fid ≡ false)

  abbrev pub KeepsOthers : ℕ → Store → Store → Type 0
  KeepsOthers fid s t = (g : ℕ) → IsPlain g → g ≢ fid → SameFile g s t

  abbrev pub KeepsAll : Store → Store → Type 0
  KeepsAll s t = (g : ℕ) → IsPlain g → SameFile g s t

  -- The file with the identifier is there and holds the bytes.
  pub record Contains (fid : ℕ) (bytes : List ℕ) (s : Store) : Type 0 where
    pub file : File
    pub found : search fid s ≡ some file
    pub written : has_data file s ≡ true
    pub size : get_size file s ≡ length bytes
    pub reads :
        (offset len : ℕ)
        → offset + len ≤ length bytes
        → read_at file offset len s ≡ done (take len (drop offset bytes))

  -- All of this is about plain identifiers. An operation on a file touches no other file. A deletion
  -- that succeeds removes the file, and one that fails changes no file, leaves the file without data, or
  -- has stopped while it was being cleared. A new file is empty, and a put that fails leaves an empty
  -- file empty. Waiting for the flash changes no file.
  pub record IsDisk : Type 0 where
    pub delete_keeps :
        (fid : ℕ) (file : File) (s : Store)
        → IsPlain fid
        → search fid s ≡ some file
        → KeepsOthers fid s (delete_no_commit file s).1
    pub delete_gone :
        (fid : ℕ) (file : File) (s : Store)
        → IsPlain fid
        → search fid s ≡ some file
        → (delete_no_commit file s).0 ≡ ok
        → search fid (delete_no_commit file s).1 ≡ none
    pub delete_ends :
        (fid : ℕ) (file : File) (s : Store)
        → IsPlain fid
        → search fid s ≡ some file
        → IsSpoiled fid (delete_no_commit file s).1 ⊎ KeepsAll s (delete_no_commit file s).1
    pub create_keeps : (fid : ℕ) (s : Store) → IsPlain fid → KeepsOthers fid s (create fid s).1
    pub create_empty :
        (fid : ℕ) (s : Store) → IsPlain fid → search fid s ≡ none → NoData fid (create fid s).1
    pub create_found :
        (fid : ℕ) (file : File) (s t : Store)
        → IsPlain fid
        → create fid s ≡ (some file, t)
        → search fid t ≡ some file
    pub put_keeps :
        (fid : ℕ) (file : File) (b : List ℕ) (s : Store)
        → IsPlain fid
        → search fid s ≡ some file
        → KeepsOthers fid s (put_data file b s).1
    pub put_fails :
        (fid : ℕ) (file : File) (b : List ℕ) (s : Store)
        → IsPlain fid
        → search fid s ≡ some file
        → has_data file s ≡ false
        → (put_data file b s).0 ≢ ok
        → NoData fid (put_data file b s).1
    pub put_contains :
        (fid : ℕ) (file : File) (b : List ℕ) (s : Store)
        → IsPlain fid
        → search fid s ≡ some file
        → 0 < length b
        → (put_data file b s).0 ≡ ok
        → Contains fid b (put_data file b s).1
    pub sync_keeps : (ms : ℕ) (s : Store) → KeepsAll s (commit_sync ms s).1

  pub SameFile-refl : (fid : ℕ) (s : Store) → SameFile fid s s
  SameFile-refl fid s = record {
    same_search = refl;
    alike = λ file e. record { same_data = refl; same_size = refl; same_read = λ offset len. refl };
  }

  pub SameFile-trans :
      (fid : ℕ) (s t u : Store) → SameFile fid s t → SameFile fid t u → SameFile fid s u
  SameFile-trans fid s t u p q = record {
    same_search = q.same_search ∙ p.same_search;
    alike = λ file e. record {
      same_data = (q.alike file (p.same_search ∙ e)).same_data ∙ (p.alike file e).same_data;
      same_size = (q.alike file (p.same_search ∙ e)).same_size ∙ (p.alike file e).same_size;
      same_read = λ offset len.
          (q.alike file (p.same_search ∙ e)).same_read offset len
          ∙ (p.alike file e).same_read offset len;
    };
  }

  pub SameFile-NoData : (fid : ℕ) (s t : Store) → SameFile fid s t → NoData fid s → NoData fid t
  SameFile-NoData fid s t same h file e =
      let found = sym same.same_search ∙ e in (same.alike file found).same_data ∙ h file found

  pub SameFile-IsSpoiled :
      (fid : ℕ) (s t : Store) → SameFile fid s t → IsSpoiled fid s → IsSpoiled fid t
  SameFile-IsSpoiled fid s t same h file e =
      let found = sym same.same_search ∙ e in
      let a = same.alike file found in
      elim (h file found) [
        | inl gone ↦ inl (a.same_data ∙ gone)
        | inr rest ↦ inr (elim rest [
          | inl short ↦ inl (short.0, a.same_size ∙ short.1)
          | inr zeroed ↦ inr (λ n less.
              let r = zeroed n (rw a.same_size at less) in (r.0, a.same_read 0 (suc n) ∙ r.1))
        ])
      ]

  pub SameFile-Contains :
      (fid : ℕ) (b : List ℕ) (s t : Store) → SameFile fid s t → Contains fid b s → Contains fid b t
  SameFile-Contains fid b s t same c =
      let a = same.alike c.file c.found in
      record {
        file = c.file;
        found = same.same_search ∙ c.found;
        written = a.same_data ∙ c.written;
        size = a.same_size ∙ c.size;
        reads = λ offset len h. a.same_read offset len ∙ c.reads offset len h;
      }

  KeepsOthers-trans :
      (fid : ℕ) (s t u : Store) → KeepsOthers fid s t → KeepsOthers fid t u → KeepsOthers fid s u
  KeepsOthers-trans fid s t u p q g plain n = SameFile-trans g s t u (p g plain n) (q g plain n)

  pub then_do-KeepsOthers :
      (fid : ℕ) (s : Store) (r : Status × Store) (k : Store → Status × Store)
      → KeepsOthers fid s r.1
      → ((t : Store) → KeepsOthers fid t (k t).1)
      → KeepsOthers fid s (then_do r k).1
  then_do-KeepsOthers fid s (e, t) k p q = elim (Bool-cases (is_ok e)) [
    | inl good ↦ rw good (KeepsOthers-trans fid s t (k t).1 p (q t))
    | inr bad ↦ rw bad p
  ]

  module _ (d : IsDisk) where
    remove_found-KeepsOthers :
        (fid : ℕ) (plain : IsPlain fid) (s : Store) (o : Option File)
        → search fid s ≡ o
        → KeepsOthers fid s (remove_found fid o s).1
    unfolding remove_found
    remove_found-KeepsOthers fid plain s none e = λ g p n. SameFile-refl g s
    remove_found-KeepsOthers fid plain s (some file) e = elim (Bool-cases (is_static fid)) [
      | inl static ↦ rw static (λ g p n. SameFile-refl g s)
      | inr dynamic ↦ rw dynamic (d.delete_keeps fid file s plain e)
    ]

    pub remove_file-KeepsOthers :
        (fid : ℕ) (plain : IsPlain fid) (s : Store) → KeepsOthers fid s (remove_file fid s).1
    unfolding remove_file
    remove_file-KeepsOthers fid plain s = remove_found-KeepsOthers fid plain s (search fid s) refl

    put_new-KeepsOthers :
        (fid : ℕ) (plain : IsPlain fid) (b : List ℕ) (s : Store) (r : Option File × Store)
        → create fid s ≡ r
        → KeepsOthers fid s (put_new b r).1
    unfolding put_new
    put_new-KeepsOthers fid plain b s (none, t) e g p n =
        rw (ap (λ (r : Option File × Store). r.1) e) at (d.create_keeps fid s plain g p n)
    put_new-KeepsOthers fid plain b s (some file, t) e g p n =
        SameFile-trans g s t (put_data file b t).1
          (rw (ap (λ (r : Option File × Store). r.1) e) at (d.create_keeps fid s plain g p n))
          (d.put_keeps fid file b t plain (d.create_found fid file s t plain e) g p n)

    pub replace_file-KeepsOthers :
        (fid : ℕ) (plain : IsPlain fid) (b : List ℕ) (s : Store)
        → KeepsOthers fid s (replace_file fid b s).1
    unfolding replace_file
    replace_file-KeepsOthers fid plain b s =
        then_do-KeepsOthers fid s (remove_file fid s) (λ t. put_new b (create fid t))
          (remove_file-KeepsOthers fid plain s)
          (λ t. put_new-KeepsOthers fid plain b t (create fid t) refl)

    pub write_sealed-KeepsOthers :
        (fid : ℕ) (plain : IsPlain fid) (b : List ℕ) (tag : Outcome (List ℕ)) (s : Store)
        → KeepsOthers fid s (write_sealed fid b tag s).1
    unfolding write_sealed
    write_sealed-KeepsOthers fid plain b (failed e) s = λ g p n. SameFile-refl g s
    write_sealed-KeepsOthers fid plain b (done tag) s =
        replace_file-KeepsOthers fid plain (b ++ tag) s

    synced-1 : (r : Bool × Store) → (synced r).1 ≡ r.1
    unfolding synced
    synced-1 (true, s) = refl
    synced-1 (false, s) = refl

    pub sync-KeepsAll : (s : Store) → KeepsAll s (sync s).1
    unfolding sync
    sync-KeepsAll s = rw (synced-1 (commit_sync 5000 s)) (d.sync_keeps 5000 s)

-- ===== src/Txn/Replace.antt =====
-- FidoAuth/pico-keys-sdk/src/fs/object_store_txn.c, file_object_txn_replace_file: what is in the file afterwards.
use key_wallet.Base.{
  ℕ, ◌<◌, ◌≡◌, ◌≢◌, ◌⊎◌, inl, inr, refl, ap, List, Option, none, some, length, Bool-cases,
}
use key_wallet.Bytes.{Status, ok}
use key_wallet.Policy.{is_ok}
use key_wallet.Objects.Storage.{Files}
use key_wallet.Txn.Crash.{NoData, IsSpoiled, NoData-IsSpoiled}
use key_wallet.Txn.Write.{then_do, remove_found, remove_file, put_new, replace_file}
use key_wallet.Txn.Disk.{
  is_ok-true, is_ok-false, KeepsAll, IsPlain, Contains, IsDisk, SameFile-refl, SameFile-NoData,
}

module _ ⦃files : Files⦄ where
  open files use {Store, File, search, has_data, create, put_data, delete_no_commit, is_static}

  -- Both parts of a chain that succeeds succeed.
  pub then_do-ok :
      (r : Status × Store) (k : Store → Status × Store)
      → (then_do r k).0 ≡ ok
      → (r.0 ≡ ok) × ((k r.1).0 ≡ ok) × (then_do r k ≡ k r.1)
  then_do-ok (e, t) k h = elim (Bool-cases (is_ok e)) [
    | inl good ↦ (is_ok-true e good, rw good at h, rw good refl)
    | inr bad ↦ absurd (is_ok-false e bad (rw bad at h))
  ]

  -- A chain that stops leaves the store of its first part or that of its second.
  pub then_do-cases :
      (r : Status × Store) (k : Store → Status × Store)
      → ((r.0 ≢ ok) × (then_do r k ≡ r)) ⊎ ((r.0 ≡ ok) × (then_do r k ≡ k r.1))
  then_do-cases (e, t) k = elim (Bool-cases (is_ok e)) [
    | inl good ↦ inr (is_ok-true e good, rw good refl)
    | inr bad ↦ inl (is_ok-false e bad, rw bad refl)
  ]

  gone-NoData : (fid : ℕ) (s : Store) → search fid s ≡ none → NoData fid s
  gone-NoData fid s gone file e = cc

  module _ (d : IsDisk) (fid : ℕ) (plain : IsPlain fid) where
    remove_found-gone :
        (s : Store) (o : Option File)
        → search fid s ≡ o
        → (remove_found fid o s).0 ≡ ok
        → search fid (remove_found fid o s).1 ≡ none
    unfolding remove_found
    remove_found-gone s none e h = e
    remove_found-gone s (some file) e h = elim (Bool-cases (is_static fid)) [
      | inl static ↦ absurd (is_ok-false _ refl (rw static at h))
      | inr dynamic ↦ rw dynamic (d.delete_gone fid file s plain e (rw dynamic at h))
    ]

    remove_found-ends :
        (s : Store) (o : Option File)
        → search fid s ≡ o
        → IsSpoiled fid (remove_found fid o s).1 ⊎ KeepsAll s (remove_found fid o s).1
    unfolding remove_found
    remove_found-ends s none e = inr (λ g p. SameFile-refl g s)
    remove_found-ends s (some file) e = elim (Bool-cases (is_static fid)) [
      | inl static ↦ rw static (inr (λ g p. SameFile-refl g s))
      | inr dynamic ↦ rw dynamic (d.delete_ends fid file s plain e)
    ]

    pub remove_file-gone :
        (s : Store) → (remove_file fid s).0 ≡ ok → search fid (remove_file fid s).1 ≡ none
    unfolding remove_file
    remove_file-gone s h = remove_found-gone s (search fid s) refl h

    pub remove_file-ends :
        (s : Store) → IsSpoiled fid (remove_file fid s).1 ⊎ KeepsAll s (remove_file fid s).1
    unfolding remove_file
    remove_file-ends s = remove_found-ends s (search fid s) refl

    pub remove_file-NoData :
        (s : Store) → (remove_file fid s).0 ≡ ok → NoData fid (remove_file fid s).1
    remove_file-NoData s h = gone-NoData fid (remove_file fid s).1 (remove_file-gone s h)

    put_new-Contains :
        (b : List ℕ) (s : Store) (r : Option File × Store)
        → create fid s ≡ r
        → 0 < length b
        → (put_new b r).0 ≡ ok
        → Contains fid b (put_new b r).1
    unfolding put_new
    put_new-Contains b s (none, t) e full h = absurd (is_ok-false _ refl h)
    put_new-Contains b s (some file, t) e full h =
        d.put_contains fid file b t plain (d.create_found fid file s t plain e) full h

    put_new-NoData :
        (b : List ℕ) (s : Store) (r : Option File × Store)
        → create fid s ≡ r
        → search fid s ≡ none
        → (put_new b r).0 ≢ ok
        → NoData fid (put_new b r).1
    unfolding put_new
    put_new-NoData b s (none, t) e gone h =
        rw (ap (λ (r : Option File × Store). r.1) e) at (d.create_empty fid s plain gone)
    put_new-NoData b s (some file, t) e gone h =
        let empty : NoData fid t =
          rw (ap (λ (r : Option File × Store). r.1) e) at (d.create_empty fid s plain gone) in
        let found = d.create_found fid file s t plain e in
        d.put_fails fid file b t plain found (empty file found) h

    pub replace_file-Contains :
        (b : List ℕ) (s : Store)
        → 0 < length b
        → (replace_file fid b s).0 ≡ ok
        → Contains fid b (replace_file fid b s).1
    unfolding replace_file
    replace_file-Contains b s full h =
        let p = then_do-ok (remove_file fid s) (λ t. put_new b (create fid t)) h in
        rw p.2 (
          put_new-Contains b (remove_file fid s).1 (create fid (remove_file fid s).1) refl full p.1)

    pub replace_file-IsSpoiled :
        (b : List ℕ) (s : Store)
        → NoData fid s
        → (replace_file fid b s).0 ≢ ok
        → IsSpoiled fid (replace_file fid b s).1
    unfolding replace_file
    replace_file-IsSpoiled b s empty h =
        elim (then_do-cases (remove_file fid s) (λ t. put_new b (create fid t))) [
          | inl stopped ↦ rw stopped.1 (elim (remove_file-ends s) [
            | inl cleared ↦ cleared
            | inr kept ↦
                NoData-IsSpoiled fid (remove_file fid s).1
                  (SameFile-NoData fid s (remove_file fid s).1 (kept fid plain) empty)
          ])
          | inr went ↦ rw went.1 (
              NoData-IsSpoiled fid (put_new b (create fid (remove_file fid s).1)).1 (
                put_new-NoData b (remove_file fid s).1 (create fid (remove_file fid s).1) refl
                  (remove_file-gone s went.0) (rw went.1 at h)))
        ]

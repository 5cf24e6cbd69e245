-- ===== src/Txn/Frame.antt =====
-- FidoAuth/pico-keys-sdk/src/fs/object_store_txn.c: what the check of a slot depends on.
use key_wallet.Base.{
  leb, ℕ, zero, suc, ◌+◌, ◌-◌, ◌≡◌, ◌⊎◌, inl, inr, refl, sym, ap, ◌∙◌, Bool, true, false, List, [],
  Option, none, some, min, ◌==◌, take, drop, if◌then◌else◌,
}
use key_wallet.Bytes.{Status, file_not_found, wrong_data, wrong_signature}
use key_wallet.Objects.Storage.{Files, Outcome, failed, done, ◌>>=◌, ◌>>◌, check}
use key_wallet.Txn.{
  Layout, at_slot, TxnState, Authenticator, RecordRef, absorb, auth_record, auth_buffer,
  record_header_size, read_chunk_size, auth_tag_size, commit_size, commit_header_size, tag_equal,
}
use key_wallet.Txn.Recover.{
  validate_tags, record_file_ok, validate_file, validate_record, validate_ref, check_commit,
  parse_commit_file, parse_commit, record_matches, commit_matches, commit_generation, ref_of,
  state_of, is_deleted, is_deleted_ref, is_record_ref,
}

bind_cong :
    {A B : Type 0} (m : Outcome A) {f g : A → Outcome B}
    → ((a : A) → f a ≡ g a)
    → (m >>= f) ≡ (m >>= g)
bind_cong (failed e) h = refl
bind_cong (done a) h = h a

-- The parts of a successful chain.
pub >>=-eq-done :
    {A B : Type 0} (m : Outcome A) (f : A → Outcome B) {b : B}
    → (m >>= f) ≡ done b
    → (a : A) × (m ≡ done a) × (f a ≡ done b)
>>=-eq-done (failed e) f h = cc
>>=-eq-done (done a) f h = (a, refl, h)

pub check-eq-done : (b : Bool) (e : Status) {u : Unit {0}} → check b e ≡ done u → b ≡ true
check-eq-done true e h = refl
check-eq-done false e h = cc

module _ ⦃files : Files⦄ where
  open files use {Store, File, search, has_data, get_size, read_at}

  -- A file reads alike in two stores.
  pub record ReadsAlike (file : File) (s t : Store) : Type 0 where
    pub same_data : has_data file t ≡ has_data file s
    pub same_size : get_size file t ≡ get_size file s
    pub same_read : (offset len : ℕ) → read_at file offset len t ≡ read_at file offset len s

  -- The file with an identifier is the same in two stores.
  pub record SameFile (fid : ℕ) (s t : Store) : Type 0 where
    pub same_search : search fid t ≡ search fid s
    pub alike : (file : File) → search fid s ≡ some file → ReadsAlike file s t

  module _ (auth : Authenticator) (file : File) (s t : Store) (same : ReadsAlike file s t) where
    open auth use {Session, start, update, finish}

    absorb-same :
        (fuel offset left : ℕ) (x : Session)
        → absorb auth fuel file offset left t x ≡ absorb auth fuel file offset left s x
    unfolding absorb
    absorb-same zero offset left x = refl
    absorb-same (suc fuel) offset zero x = refl
    absorb-same (suc fuel) offset (suc left) x =
        let chunk = min read_chunk_size (suc left) in
        rw (same.same_read (record_header_size + offset) chunk) (
          bind_cong (read_at file (record_header_size + offset) chunk s) (λ b.
            bind_cong (update b x) (λ y. absorb-same fuel (offset + chunk) (suc left - chunk) y)))

    auth_record-same :
        (h : List ℕ) (n : ℕ) → auth_record auth file h n t ≡ auth_record auth file h n s
    unfolding auth_record
    auth_record-same h n =
        bind_cong start
          (λ x. bind_cong (update h x) (λ y. ap (λ o. o >>= finish) (absorb-same n 0 n y)))

    validate_tags-same :
        (layout : Layout) (r : RecordRef) (h : List ℕ)
        → validate_tags layout auth file r h t ≡ validate_tags layout auth file r h s
    unfolding validate_tags
    validate_tags-same layout r h =
        rw
          (
            auth_record-same h r.ref_size,
            same.same_read (record_header_size + r.ref_size) auth_tag_size,
          )
          refl

    validate_file-alike :
        (layout : Layout) (g : ℕ) (r : RecordRef)
        → validate_file layout auth g r (some file) t ≡ validate_file layout auth g r (some file) s
    unfolding validate_file record_file_ok
    validate_file-alike layout g r =
        rw (same.same_data, same.same_size, same.same_read 0 record_header_size)
          (bind_cong (check (has_data file s) file_not_found) (λ u.
            bind_cong (check (record_file_ok layout auth r.ref_slot r file s) wrong_data) (λ v.
              bind_cong (read_at file 0 record_header_size s) (λ h.
                bind_cong (check (record_matches layout g r.ref_slot r h) wrong_data)
                  (λ w. validate_tags-same layout r h)))))

  module _ (layout : Layout) (auth : Authenticator) (s t : Store) where
    validate_file-same :
        (g : ℕ) (r : RecordRef) (o : Option File)
        → ((file : File) → o ≡ some file → ReadsAlike file s t)
        → validate_file layout auth g r o t ≡ validate_file layout auth g r o s
    unfolding validate_file
    validate_file-same g r none h = refl
    validate_file-same g r (some file) h =
        validate_file-alike auth file s t (h file refl) layout g r

    validate_record-same :
        (g : ℕ) (r : RecordRef)
        → SameFile (at_slot r.ref_slot layout.record_fid) s t
        → validate_record layout auth g r t ≡ validate_record layout auth g r s
    unfolding validate_record
    validate_record-same g r same = rw same.same_search (
        bind_cong (check (leb r.ref_slot 1) wrong_data) (λ u.
          validate_file-same g r (search (at_slot r.ref_slot layout.record_fid) s) same.alike))

    -- A commit of a deletion has no record.
    validate_ref-same :
        (g : ℕ) (r : RecordRef)
        → (is_deleted r ≡ true) ⊎ SameFile (at_slot r.ref_slot layout.record_fid) s t
        → validate_ref layout auth g r t ≡ validate_ref layout auth g r s
    unfolding validate_ref
    validate_ref-same g r (inl gone) = rw gone refl
    validate_ref-same g r (inr same) =
        ap
          (λ o.
            if is_deleted r
            then check (is_deleted_ref r) wrong_data
            else (check (is_record_ref layout r) wrong_data >> o))
          (validate_record-same g r same)

    check_commit-same :
        (slot : ℕ) (c : List ℕ)
        → (is_deleted (ref_of c) ≡ true)
          ⊎ SameFile (at_slot (ref_of c).ref_slot layout.record_fid) s t
        → check_commit layout auth slot c t ≡ check_commit layout auth slot c s
    unfolding check_commit
    check_commit-same slot c h = rw (validate_ref-same (commit_generation c) (ref_of c) h) refl

  -- What a check of a commit that succeeds has seen.
  check_commit-done :
      (layout : Layout) (auth : Authenticator) (slot : ℕ) (c : List ℕ) (s : Store) {st : TxnState}
      → check_commit layout auth slot c s ≡ done st
      → st ≡ state_of slot (commit_generation c) (ref_of c)
  unfolding check_commit
  check_commit-done layout auth slot c s h =
      let a = >>=-eq-done (check (commit_matches layout slot c) wrong_data) _ h in
      let b = >>=-eq-done (auth_buffer auth (take commit_header_size c) []) _ a.2 in
      let d =
        >>=-eq-done (check (tag_equal b.0 (drop commit_header_size c)) wrong_signature) _ b.2 in
      let e = >>=-eq-done (validate_ref layout auth (commit_generation c) (ref_of c) s) _ d.2 in
      cc (e.2)

  pub record ParsedFrom (layout : Layout) (auth : Authenticator) (slot : ℕ) (s : Store)
      (st : TxnState) : Type 0 where
    pub file : File
    pub bytes : List ℕ
    pub found : search (at_slot slot layout.commit_fid) s ≡ some file
    pub written : has_data file s ≡ true
    pub size : (get_size file s == commit_size) ≡ true
    pub contents : read_at file 0 commit_size s ≡ done bytes
    pub checked : check_commit layout auth slot bytes s ≡ done st

  parse_commit_file-done :
      (layout : Layout) (auth : Authenticator) (slot : ℕ) (s : Store) {st : TxnState}
      (o : Option File)
      → search (at_slot slot layout.commit_fid) s ≡ o
      → parse_commit_file layout auth slot o s ≡ done st
      → ParsedFrom layout auth slot s st
  unfolding parse_commit_file
  parse_commit_file-done layout auth slot s none e h = cc
  parse_commit_file-done layout auth slot s (some file) e h =
      let a = >>=-eq-done (check (has_data file s) file_not_found) _ h in
      let b = >>=-eq-done (check (get_size file s == commit_size) wrong_data) _ a.2 in
      let d = >>=-eq-done (read_at file 0 commit_size s) _ b.2 in
      record {
        file = file;
        bytes = d.0;
        found = e;
        written = check-eq-done (has_data file s) file_not_found a.1;
        size = check-eq-done (get_size file s == commit_size) wrong_data b.1;
        contents = d.1;
        checked = d.2;
      }

  records_of :
      (layout : Layout) (slot g : ℕ) (r : RecordRef) {st : TxnState} {s t : Store}
      → st ≡ state_of slot g r
      → (st.deleted ≡ true) ⊎ SameFile (at_slot st.record_slot layout.record_fid) s t
      → (is_deleted r ≡ true) ⊎ SameFile (at_slot r.ref_slot layout.record_fid) s t
  unfolding state_of
  records_of layout slot g r e (inl gone) = inl (sym (ap (λ (x : TxnState). x.deleted) e) ∙ gone)
  records_of layout slot g r e (inr same) =
      inr (rw (ap (λ (x : TxnState). x.record_slot) e) at same)

  module _ (layout : Layout) (auth : Authenticator) (slot : ℕ) (s : Store) {st : TxnState} where
    pub parse_commit-ParsedFrom :
        parse_commit layout auth slot s ≡ done st → ParsedFrom layout auth slot s st
    unfolding parse_commit
    parse_commit-ParsedFrom h =
        parse_commit_file-done layout auth slot s (search (at_slot slot layout.commit_fid) s) refl h

    pub parse_commit-slot : parse_commit layout auth slot s ≡ done st → st.commit_slot ≡ slot
    unfolding state_of
    parse_commit-slot h =
        let p = parse_commit-ParsedFrom h in
        ap (λ (x : TxnState). x.commit_slot)
          (check_commit-done layout auth slot p.bytes s p.checked)

    -- A slot is parsed alike in two stores with the same commit file and, unless it is a deletion, the
    -- same record file.
    pub parse_commit-same :
        (t : Store)
        → parse_commit layout auth slot s ≡ done st
        → SameFile (at_slot slot layout.commit_fid) s t
        → (st.deleted ≡ true) ⊎ SameFile (at_slot st.record_slot layout.record_fid) s t
        → parse_commit layout auth slot t ≡ done st
    unfolding parse_commit parse_commit_file
    parse_commit-same t h same records =
        let p = parse_commit-ParsedFrom h in
        let made = check_commit-done layout auth slot p.bytes s p.checked in
        let alike = same.alike p.file p.found in
        rw
          (
            same.same_search,
            p.found,
            alike.same_data,
            p.written,
            alike.same_size,
            p.size,
            alike.same_read 0 commit_size,
            p.contents,
          )
          (check_commit-same layout auth s t slot p.bytes
              (records_of layout slot (commit_generation p.bytes) (ref_of p.bytes) made records)
            ∙ p.checked)

  -- Where the files of a layout are the same, every check gives the same, failures included.
  module _ (layout : Layout) (auth : Authenticator) (s t : Store)
      (commits : (slot : ℕ) → SameFile (at_slot slot layout.commit_fid) s t)
      (records : (slot : ℕ) → SameFile (at_slot slot layout.record_fid) s t) where
    parse_commit_file-same :
        (slot : ℕ) (o : Option File)
        → ((file : File) → o ≡ some file → ReadsAlike file s t)
        → parse_commit_file layout auth slot o t ≡ parse_commit_file layout auth slot o s
    unfolding parse_commit_file
    parse_commit_file-same slot none h = refl
    parse_commit_file-same slot (some file) h =
        let a = h file refl in
        rw (a.same_data, a.same_size, a.same_read 0 commit_size)
          (bind_cong (check (has_data file s) file_not_found) (λ u.
            bind_cong (check (get_size file s == commit_size) wrong_data) (λ v.
              bind_cong (read_at file 0 commit_size s) (λ c.
                check_commit-same layout auth s t slot c (inr (records (ref_of c).ref_slot))))))

    pub parse_commit-all :
        (slot : ℕ) → parse_commit layout auth slot t ≡ parse_commit layout auth slot s
    unfolding parse_commit
    parse_commit-all slot =
        let f = commits slot in
        rw f.same_search
          (parse_commit_file-same slot (search (at_slot slot layout.commit_fid) s) f.alike)

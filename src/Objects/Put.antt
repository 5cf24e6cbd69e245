-- ===== src/Objects/Put.antt =====
-- FidoAuth/pico-keys-sdk/src/fs/object_store.c, file_object_put: what a successful put leaves.
use key_wallet.Base.{
  ◌<◌, ◌≢◌, ◌∙◌, ap, sym, ℕ, ◌+◌, ◌≡◌, refl, true, false, not, ◌||◌, List, ◌++◌, Option, none, some,
  ltb, ◌==◌, length, arith, Bool-cases, inl, inr,
}
use key_wallet.Bytes.{Status, ok}
use key_wallet.Objects.{
  parse_header, parse_file, header_matches, ObjectId, ObjectRecord, header, object_parse,
  object_header_size, write_object, replace_object, put_created, put_found, object_put, id_valid,
}
use key_wallet.Objects.Storage.{Files, Outcome, failed, done}
use key_wallet.Objects.Record.{Holds, header-append-length}

module _ ⦃files : Files⦄ where
  open files use {Store, File, search, has_data, get_size, read_at, fid_of, create, put_data}

  -- What the file table promises: a put leaves bytes in the file, if there are any, and moves no file, a file that
  -- is found has the identifier it was looked up by, and a new file is found.
  pub record IsFileTable : Type 0 where
    pub put_holds :
        (file : File) (b : List ℕ) (s : Store)
        → 0 < length b
        → (put_data file b s).0 ≡ ok
        → Holds file b (fid_of file s) (put_data file b s).1
    pub put_keeps :
        (file : File) (b : List ℕ) (s : Store) (fid : ℕ)
        → search fid (put_data file b s).1 ≡ search fid s
    pub found_fid :
        (fid : ℕ) (file : File) (s : Store) → search fid s ≡ some file → fid_of file s ≡ fid
    pub create_found :
        (fid : ℕ) (file : File) (s s1 : Store)
        → create fid s ≡ (some file, s1)
        → search fid s1 ≡ some file

  -- What is there after a successful put of `payload` under the generation `g`.
  abbrev pub Stored : ObjectId → ℕ → List ℕ → Store → Type 0
  Stored id g payload s =
      (file : File) × (search id.fid s ≡ some file)
      × Holds file (header id g (length payload) ++ payload) id.fid s

  write_object-ok :
      (id : ObjectId) (g : ℕ) (payload : List ℕ) (file : File) (s : Store)
      → (write_object id g payload file s).0 ≡ ok
      → write_object id g payload file s ≡ put_data file (header id g (length payload) ++ payload) s
  unfolding write_object
  write_object-ok id g payload file s good = ground arith

  put_data-Holds :
      (t : IsFileTable) (id : ObjectId) (file : File) (b : List ℕ) (s : Store)
      → fid_of file s ≡ id.fid
      → 0 < length b
      → (put_data file b s).0 ≡ ok
      → Holds file b id.fid (put_data file b s).1
  put_data-Holds t id file b s named full good = rw (sym named) (t.put_holds file b s full good)

  write_object-Stored :
      (t : IsFileTable) (id : ObjectId) (g : ℕ) (payload : List ℕ) (file : File) (s : Store)
      → search id.fid s ≡ some file
      → (write_object id g payload file s).0 ≡ ok
      → Stored id g payload (write_object id g payload file s).1
  write_object-Stored t id g payload file s found good =
      let e = write_object-ok id g payload file s good in
      let b = header id g (length payload) ++ payload in
      let named = t.found_fid id.fid file s found in
      rw e (
        file,
        t.put_keeps file b s id.fid ∙ found,
        put_data-Holds t id file b s named (omega (arith, header-append-length id g payload))
            (ap (λ r. r.0) (sym e) ∙ good),
      )

  -- The generation that a put gives: 1 for a new object, else one more than before.
  abbrev pub generation_after : Outcome ObjectRecord → ℕ
  generation_after (failed e) = 1
  generation_after (done r) = r.generation + 1

  abbrev pub next_generation : ObjectId → Store → ℕ
  next_generation id s = generation_after (object_parse id (search id.fid s) s)

  abbrev NotOk : Outcome ObjectRecord → Type 0
  NotOk (failed e) = e ≢ ok
  NotOk (done r) = Unit

  parse_header-NotOk :
      (id : ObjectId) (fid size : ℕ) (r : Outcome (List ℕ)) → NotOk (parse_header id fid size r)
  unfolding parse_header
  parse_header-NotOk id fid size (failed e) = λ h. cc
  parse_header-NotOk id fid size (done b) = elim (Bool-cases (header_matches id fid size b)) [
    | inl matches ↦ rw matches tt
    | inr differs ↦ rw differs (λ h. cc)
  ]

  parse_file-NotOk : (id : ObjectId) (file : File) (s : Store) → NotOk (parse_file id file s)
  unfolding parse_file
  parse_file-NotOk id file s = elim (Bool-cases (not (id_valid id) || not (has_data file s))) [
    | inl absent ↦ rw absent (λ h. cc)
    | inr there ↦ elim (Bool-cases (ltb (get_size file s) object_header_size)) [
      | inl short ↦ rw (there, short) (λ h. cc)
      | inr long ↦
          rw (there, long)
            (parse_header-NotOk id (fid_of file s) (get_size file s)
              (read_at file 0 object_header_size s))
    ]
  ]

  -- The put wrote the object with the next generation, from a store that finds the file.
  abbrev Writes : ObjectId → ℕ → List ℕ → Status × Store → Type 0
  Writes id g payload result =
      (file : File) × (s0 : Store) × (search id.fid s0 ≡ some file)
      × (result ≡ write_object id g payload file s0)

  replace-Writes :
      (id : ObjectId) (payload : List ℕ) (file : File) (s : Store) (o : Outcome ObjectRecord)
      → search id.fid s ≡ some file
      → NotOk o
      → (replace_object id payload file s o).0 ≡ ok
      → Writes id (generation_after o) payload (replace_object id payload file s o)
  unfolding replace_object
  replace-Writes id payload file s (failed e) found bad good = absurd (bad good)
  replace-Writes id payload file s (done r) found bad good =
      elim (Bool-cases (r.generation == 0xffffffff)) [
        | inl last ↦ absurd (ground arith)
        | inr more ↦ (file, s, found, rw more refl)
      ]

  created-Writes :
      (t : IsFileTable) (id : ObjectId) (payload : List ℕ) (s : Store) (r : Option File × Store)
      → create id.fid s ≡ r
      → (put_created id payload r).0 ≡ ok
      → Writes id 1 payload (put_created id payload r)
  unfolding put_created
  created-Writes t id payload s (none, s1) e good = absurd (cc)
  created-Writes t id payload s (some file, s1) e good =
      (file, s1, t.create_found id.fid file s s1 e, refl)

  put_found-full :
      (id : ObjectId) (payload : List ℕ) (file : File) (s : Store)
      → has_data file s ≡ true
      → put_found id payload (some file) s
        ≡ replace_object id payload file s (object_parse id (some file) s)
  unfolding put_found
  put_found-full id payload file s full = rw full refl

  put_found-empty :
      (id : ObjectId) (payload : List ℕ) (file : File) (s : Store)
      → has_data file s ≡ false
      → put_found id payload (some file) s ≡ write_object id 1 payload file s
  unfolding put_found
  put_found-empty id payload file s empty = rw empty refl

  object_parse-empty :
      (id : ObjectId) (file : File) (s : Store)
      → has_data file s ≡ false
      → generation_after (object_parse id (some file) s) ≡ 1
  unfolding object_parse parse_file
  object_parse-empty id file s empty = ground (arith, empty)

  object_parse-NotOk :
      (id : ObjectId) (file : File) (s : Store) → NotOk (object_parse id (some file) s)
  unfolding object_parse
  object_parse-NotOk id file s = parse_file-NotOk id file s

  object_parse-none : (id : ObjectId) (s : Store) → generation_after (object_parse id none s) ≡ 1
  unfolding object_parse
  object_parse-none id s = refl

  put_found-none :
      (id : ObjectId) (payload : List ℕ) (s : Store)
      → put_found id payload none s ≡ put_created id payload (create id.fid s)
  unfolding put_found
  put_found-none id payload s = refl

  found-Writes :
      (t : IsFileTable) (id : ObjectId) (payload : List ℕ) (s : Store) (o : Option File)
      → search id.fid s ≡ o
      → (put_found id payload o s).0 ≡ ok
      → Writes id (generation_after (object_parse id o s)) payload (put_found id payload o s)
  found-Writes t id payload s none e good =
      let p = put_found-none id payload s in
      rw (object_parse-none id s, p)
        (created-Writes t id payload s (create id.fid s) refl (ap (λ r. r.0) (sym p) ∙ good))
  found-Writes t id payload s (some file) e good = elim (Bool-cases (has_data file s)) [
    | inl full ↦
        (let p = put_found-full id payload file s full in
          rw p (
            replace-Writes id payload file s (object_parse id (some file) s) e
              (object_parse-NotOk id file s) (ap (λ r. r.0) (sym p) ∙ good)))
    | inr empty ↦
        (let p = put_found-empty id payload file s empty in
          rw (p, object_parse-empty id file s empty) (file, s, e, refl))
  ]

  put_found_good :
      (id : ObjectId) (payload : List ℕ) (s : Store)
      → (not (id_valid id) || ltb 0xffffffff (length payload)) ≡ false
      → (object_put id payload s).0 ≡ ok
      → (put_found id payload (search id.fid s) s).0 ≡ ok
  unfolding object_put
  put_found_good id payload s fine good = ground (arith, fine)

  object_put-Writes :
      (t : IsFileTable) (id : ObjectId) (payload : List ℕ) (s : Store)
      → (object_put id payload s).0 ≡ ok
      → Writes id (next_generation id s) payload (object_put id payload s)
  unfolding object_put
  object_put-Writes t id payload s good =
      elim (Bool-cases (not (id_valid id) || ltb 0xffffffff (length payload))) [
        | inl bad ↦ absurd (ground arith)
        | inr fine ↦ rw fine (
            found-Writes t id payload s (search id.fid s) refl
              (put_found_good id payload s fine good))
      ]

  -- A put that succeeds leaves, where the file table keeps its promises, a file under the identifier
  -- of the object that holds the header of the object with the next generation, and the payload.
  pub object_put-Stored :
      (t : IsFileTable) (id : ObjectId) (payload : List ℕ) (s : Store)
      → (object_put id payload s).0 ≡ ok
      → Stored id (next_generation id s) payload (object_put id payload s).1
  object_put-Stored t id payload s good =
      let w = object_put-Writes t id payload s good in
      rw w.3 (
        write_object-Stored t id (next_generation id s) payload w.0 w.1 w.2
          (ap (λ r. r.0) (sym w.3) ∙ good))

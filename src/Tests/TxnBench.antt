-- ===== src/Tests/TxnBench.antt =====
-- A disk that keeps its files in memory, with place for files of at most 100 bytes, and an authenticator with a checksum, for the runs of the
-- transactional store.
use key_wallet.Base.{
  ℕ, ◌+◌, ◌%◌, ◌≤◌, ◌<◌, ◌≡◌, ◌≢◌, inl, refl, sym, ap, ◌∙◌, Bool, true, false, List, [], ◌∷◌, ◌++◌,
  Option, none, some, leb, ◌==◌, if◌then◌else◌, length, take, drop, replicate, arith, ==_iff,
  Bool-cases, inr,
}
use key_wallet.Bytes.{ok, wrong_length, no_memory}
use key_wallet.Txn.Crash.{NoData}
use key_wallet.Objects.Storage.{Files, Outcome, failed, done}
use key_wallet.Txn.{Authenticator}
use key_wallet.Txn.Frame.{SameFile}
use key_wallet.Txn.Disk.{IsDisk, Contains}
use key_wallet.Txn.Mac.{IsMac}

abbrev pub Contents : Type 0
Contents = ℕ → Option (List ℕ)

abbrev pub bytes_of : Option (List ℕ) → List ℕ
bytes_of none = []
bytes_of (some b) = b

abbrev pub named : ℕ → Option (List ℕ) → Option ℕ
named fid none = none
named fid (some b) = some fid

abbrev pub filled : List ℕ → Bool
filled [] = false
filled (x ∷ b) = true

abbrev pub read_part : List ℕ → ℕ → ℕ → Outcome (List ℕ)
read_part b offset len =
    if leb (offset + len) (length b) then done (take len (drop offset b)) else failed wrong_length

abbrev pub set_at : ℕ → Option (List ℕ) → Contents → Contents
set_at fid b s g = if g == fid then b else s g

instance abbrev pub memory : Files
memory = record {
  Store = Contents;
  File = ℕ;
  search = λ fid s. named fid (s fid);
  has_data = λ file s. filled (bytes_of (s file));
  get_size = λ file s. length (bytes_of (s file));
  fid_of = λ file s. file;
  read_at = λ file offset len s. read_part (bytes_of (s file)) offset len;
  create = λ fid s. (some fid, set_at fid (some []) s);
  put_data =
      λ file b s. if leb (length b) 100 then (ok, set_at file (some b) s) else (no_memory, s);
  delete = λ file s. (ok, set_at file none s);
  delete_no_commit = λ file s. (ok, set_at file none s);
  is_static = λ fid. false;
  commit_sync = λ ms s. (true, s);
  allocates = λ n s. true;
}

named_same : (fid file : ℕ) (o : Option (List ℕ)) → named fid o ≡ some file → fid ≡ file
named_same fid file none e = absurd (ground arith)
named_same fid file (some b) e = ap (λ (x : Option ℕ). elim x [ none ↦ fid | some n ↦ n ]) e

pub same_contents : (g : ℕ) (s t : Contents) → t g ≡ s g → SameFile g s t
same_contents g s t e = record {
  same_search = ap (λ (o : Option (List ℕ)). named g o) e;
  alike = λ file found.
      let same =
        ap (λ (o : Option (List ℕ)). bytes_of o) (rw (named_same g file (s g) found) at e) in
      record {
        same_data = ap (λ (b : List ℕ). filled b) same;
        same_size = ap (λ (b : List ℕ). length b) same;
        same_read = λ offset len. ap (λ (b : List ℕ). read_part b offset len) same;
      };
}

set_same : (fid : ℕ) (b : Option (List ℕ)) (s : Contents) → set_at fid b s fid ≡ b
set_same fid b s = rw ((==_iff fid fid).1 refl) refl

set_other : (g fid : ℕ) (b : Option (List ℕ)) (s : Contents) → g ≢ fid → set_at fid b s g ≡ s g
set_other g fid b s n = let e : (g == fid) ≡ false = ground (arith, n) in rw e refl

read_part_within :
    (b : List ℕ) (offset len : ℕ)
    → offset + len ≤ length b
    → read_part b offset len ≡ done (take len (drop offset b))
read_part_within b offset len h = ground arith

filled-true : (b : List ℕ) → 0 < length b → filled b ≡ true
filled-true [] h = absurd (omega arith)
filled-true (x ∷ b) h = refl

keeps :
    (fid file : ℕ) (b : Option (List ℕ)) (s : Contents)
    → named fid (s fid) ≡ some file
    → (g : ℕ) → g ≢ fid
    → SameFile g s (set_at file b s)
keeps fid file b s e g n =
    same_contents g s (set_at file b s)
      (set_other g file b s (λ p. n (p ∙ sym (named_same fid file (s fid) e))))

empty_there :
    (fid : ℕ) (s : Contents) (file : ℕ)
    → bytes_of (s fid) ≡ []
    → named fid (s fid) ≡ some file
    → filled (bytes_of (s file)) ≡ false
empty_there fid s file e found =
    rw (sym (named_same fid file (s fid) found)) (ap (λ (b : List ℕ). filled b) e)

written :
    (fid file : ℕ) (b : List ℕ) (s : Contents)
    → named fid (s fid) ≡ some file
    → 0 < length b
    → Contains fid b (set_at file (some b) s)
written fid file b s e full =
    let same = set_same file (some b) s in
    record {
      file = file;
      found = rw (named_same fid file (s fid) e) (ap (λ (o : Option (List ℕ)). named file o) same);
      written = rw same (filled-true b full);
      size = rw same refl;
      reads = λ offset len h. rw same (read_part_within b offset len h);
    }

put_keeps :
    (fid file : ℕ) (b : List ℕ) (s : Contents)
    → named fid (s fid) ≡ some file
    → (g : ℕ) → g ≢ fid
    → SameFile g s (memory.put_data file b s).1
put_keeps fid file b s e g n = elim (Bool-cases (leb (length b) 100)) [
  | inl small ↦ rw small (keeps fid file (some b) s e g n)
  | inr large ↦ rw large (same_contents g s s refl)
]

-- A put that fails leaves everything as it was.
put_fails :
    (fid file : ℕ) (b : List ℕ) (s : Contents)
    → named fid (s fid) ≡ some file
    → filled (bytes_of (s file)) ≡ false
    → (memory.put_data file b s).0 ≢ ok
    → NoData fid (memory.put_data file b s).1
put_fails fid file b s e empty bad x found = elim (Bool-cases (leb (length b) 100)) [
  | inl small ↦ absurd (bad (rw small refl))
  | inr large ↦
      (let there : named fid (s fid) ≡ some x = rw large at found in
        rw large
          (rw (sym (named_same fid file (s fid) e), named_same fid x (s fid) there) at empty))
]

put_written :
    (fid file : ℕ) (b : List ℕ) (s : Contents)
    → named fid (s fid) ≡ some file
    → 0 < length b
    → (memory.put_data file b s).0 ≡ ok
    → Contains fid b (memory.put_data file b s).1
put_written fid file b s e full good = elim (Bool-cases (leb (length b) 100)) [
  | inl small ↦ rw small (written fid file b s e full)
  | inr large ↦ (let bad : no_memory ≡ ok = rw large at good in absurd (ground arith))
]

number_or : ℕ → Option ℕ → ℕ
number_or d none = d
number_or d (some n) = n

created_found :
    (fid file : ℕ) (s t : Contents)
    → memory.create fid s ≡ (some file, t)
    → named fid (t fid) ≡ some file
unfolding number_or
created_found fid file s t e =
    let store : set_at fid (some []) s ≡ t = ap (λ (p : Option ℕ × Contents). p.1) e in
    let name : fid ≡ file = ap (λ (p : Option ℕ × Contents). number_or fid p.0) e in
    rw (sym store, set_same fid (some []) s) (ap some name)

pub memory-IsDisk : IsDisk
memory-IsDisk = record {
  delete_keeps = λ fid file s plain e g p n. keeps fid file none s e g n;
  delete_gone = λ fid file s plain e good.
      rw (named_same fid file (s fid) e)
        (ap (λ (o : Option (List ℕ)). named file o) (set_same file none s));
  delete_ends = λ fid file s plain e. inl (λ x found. inl (
      empty_there fid (set_at file none s) x
        (rw (named_same fid file (s fid) e)
          (ap (λ (o : Option (List ℕ)). bytes_of o) (set_same file none s)))
        found));
  create_keeps = λ fid s plain g p n.
      same_contents g s (set_at fid (some []) s) (set_other g fid (some []) s n);
  create_empty = λ fid s plain gone x found.
      empty_there fid (set_at fid (some []) s) x
        (ap (λ (o : Option (List ℕ)). bytes_of o) (set_same fid (some []) s)) found;
  create_found = λ fid file s t plain e. created_found fid file s t e;
  put_keeps = λ fid file b s plain e g p n. put_keeps fid file b s e g n;
  put_fails = λ fid file b s plain e empty bad. put_fails fid file b s e empty bad;
  put_contains = λ fid file b s plain e full good. put_written fid file b s e full good;
  sync_keeps = λ ms s g p. same_contents g s s refl;
}

abbrev pub checksum : List ℕ → ℕ
checksum [] = 0
checksum (x ∷ b) = (x + checksum b) % 256

-- A session holds the bytes that were fed.
abbrev pub summing : Authenticator
summing = record {
  Session = List ℕ;
  start = done [];
  update = λ b x. done (x ++ b);
  finish = λ x. done (checksum x ∷ replicate 15 0);
}

pub summing-IsMac : IsMac summing
summing-IsMac = record {
  mac = λ b. checksum b ∷ replicate 15 0;
  fed = λ x. x;
  starts = ([], refl, refl);
  updates = λ b x. (x ++ b, refl, refl);
  finishes = λ x. refl;
  tag_length = λ b. refl;
}

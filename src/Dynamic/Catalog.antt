-- ===== src/Dynamic/Catalog.antt =====
-- FidoAuth/pico-keys-sdk/src/fs/file.c: the dynamic files against a plain map from identifiers.
use key_wallet.Base.{
  ℕ, ◌+◌, ◌-◌, ◌≡◌, ◌≢◌, inl, inr, refl, ap, ◌∙◌, true, false, Option, none, some, List, [], ◌∷◌,
  leb, ◌==◌, if◌then◌else◌, Bool-cases, arith, ==_iff, All,
}
use key_wallet.Dynamic.{
  DynamicFiles, max_dynamic_files, search_dynamic_file, occupy_slot, file_new, scan_file, link_data,
  delete_dynamic_file,
}
use key_wallet.Dynamic.Path.{IsLive}
use key_wallet.Dynamic.Files.{
  IsSound, file_new-IsSound, delete_dynamic_file-IsSound, count-some, was_there, refused, occupied,
  new_case, missing, deleted, delete_case,
}
use key_wallet.Dynamic.View.{
  lookup, kept_or_new, new_other, new_same, delete_other, delete_same, lookup-none, lookup-some,
}
use key_wallet.Dynamic.Requests.{scan_file-IsSound, relinked, scan_same, scan_other}

-- A file is created, created and linked by the scan of the flash, or searched and deleted.
pub data Request : Type 0 where
  create : ℕ → Request
  scan : ℕ → ℕ → Request
  remove : ℕ → Request

unfoldable pub perform : Request → DynamicFiles → DynamicFiles
perform (create f) d = (file_new f d).1
perform (scan f a) d = scan_file f a d
perform (remove f) d = (delete_dynamic_file (search_dynamic_file f d) d).1

unfoldable pub run_requests : List Request → DynamicFiles → DynamicFiles
run_requests [] d = d
run_requests (r ∷ rs) d = run_requests rs (perform r d)

-- A map, and the number of its files.
pub record Catalog : Type 0 where
  pub shows : ℕ → Option (Option ℕ)
  pub size : ℕ

abbrev pub update : ℕ → Option (Option ℕ) → (ℕ → Option (Option ℕ)) → ℕ → Option (Option ℕ)
update f v m g = if g == f then v else m g

abbrev one_more : Option (Option ℕ) → ℕ → ℕ
one_more none n = if leb max_dynamic_files n then n else n + 1
one_more (some v) n = n

abbrev one_less : Option (Option ℕ) → ℕ → ℕ
one_less none n = n
one_less (some v) n = n - 1

abbrev with_file : ℕ → Catalog → Catalog
with_file f c = record {
  shows = update f (kept_or_new (c.shows f) (leb max_dynamic_files c.size)) c.shows;
  size = one_more (c.shows f) c.size;
}

unfoldable pub apply_request : Request → Catalog → Catalog
apply_request (create f) c = with_file f c
apply_request (scan f a) c = record {
  shows = update f (relinked (kept_or_new (c.shows f) (leb max_dynamic_files c.size)) a) c.shows;
  size = one_more (c.shows f) c.size;
}
apply_request (remove f) c = record {
  shows = update f none c.shows;
  size = one_less (c.shows f) c.size;
}

unfoldable pub apply_requests : List Request → Catalog → Catalog
apply_requests [] c = c
apply_requests (r ∷ rs) c = apply_requests rs (apply_request r c)

abbrev pub no_files : Catalog
no_files = record { shows = λ g. none; size = 0 }

abbrev pub asked : Request → ℕ
asked (create f) = f
asked (scan f a) = f
asked (remove f) = f

-- Every search of the table shows what the map shows.
pub record Shows (d : DynamicFiles) (c : Catalog) : Type 0 where
  pub same : (g : ℕ) → IsLive g → lookup g d ≡ c.shows g
  pub counts : d.count ≡ c.size

new-count :
    (f : ℕ) (d : DynamicFiles)
    → IsSound d
    → IsLive f
    → (file_new f d).1.count ≡ one_more (lookup f d) d.count
unfolding occupy_slot
new-count f d s h = elim (new_case f d s) [
  | was_there i e r ↦ rw (r, lookup-some f i d e) refl
  | refused e b r ↦
      (let full : leb max_dynamic_files d.count ≡ true = ground (arith, b h) in
        rw (r, lookup-none f d e, full) refl)
  | occupied i absent live room place r ↦
      (let free : leb max_dynamic_files d.count ≡ false = ground (arith, room) in
        rw (r, lookup-none f d absent, free) (omega (arith, room)))
]

pub perform-IsSound : (r : Request) (d : DynamicFiles) → IsSound d → IsSound (perform r d)
unfolding perform
perform-IsSound (create f) d s = file_new-IsSound f d s
perform-IsSound (scan f a) d s = scan_file-IsSound f a d s
perform-IsSound (remove f) d s = delete_dynamic_file-IsSound (search_dynamic_file f d) d s

delete-count :
    (f : ℕ) (d : DynamicFiles)
    → IsSound d
    → IsLive f
    → (delete_dynamic_file (search_dynamic_file f d) d).1.count ≡ one_less (lookup f d) d.count
delete-count f d s h = elim (delete_case (search_dynamic_file f d) d) [
  | missing b r ↦ (let shown = rw r at (delete_same f d s h) in rw (r, shown) refl)
  | deleted i e l live r ↦
      rw (r, lookup-some f i d e) (omega (arith, s.bounded, count-some i d s l live))
]

-- The other identifiers, and the one that was asked for.
updated :
    (f : ℕ) (v : Option (Option ℕ)) (d e : DynamicFiles) (c : Catalog)
    → Shows d c
    → lookup f e ≡ v
    → ((g : ℕ) → IsLive g → g ≢ f → lookup g e ≡ lookup g d)
    → (g : ℕ) → IsLive g
    → lookup g e ≡ update f v c.shows g
updated f v d e c s here others g h = elim (Bool-cases (g == f)) [
  | inl same ↦ rw same (rw ((==_iff g f).0 same) here)
  | inr differs ↦ rw differs (others g h (ground (arith, differs)) ∙ s.same g h)
]

link-count : (p : Option ℕ) (a : ℕ) (d : DynamicFiles) → (link_data p a d).count ≡ d.count
unfolding link_data
link-count none a d = refl
link-count (some i) a d = refl

scan-count : (f a : ℕ) (d : DynamicFiles) → (scan_file f a d).count ≡ (file_new f d).1.count
unfolding scan_file
scan-count f a d = link-count (file_new f d).0 a (file_new f d).1

module _ (d : DynamicFiles) (c : Catalog) (s : IsSound d) (t : Shows d c) (f : ℕ)
    (h : IsLive f) where
  kept_or_new-Shows :
      lookup f (file_new f d).1 ≡ kept_or_new (c.shows f) (leb max_dynamic_files c.size)
  kept_or_new-Shows =
      new_same f d s h
      ∙ ap (λ (v : Option (Option ℕ)). kept_or_new v (leb max_dynamic_files d.count)) (t.same f h)
      ∙ ap (λ (n : ℕ). kept_or_new (c.shows f) (leb max_dynamic_files n)) t.counts

  one_more-Shows : (file_new f d).1.count ≡ one_more (c.shows f) c.size
  one_more-Shows =
      new-count f d s h
      ∙ ap (λ (v : Option (Option ℕ)). one_more v d.count) (t.same f h)
      ∙ ap (one_more (c.shows f)) t.counts

  create-Shows : Shows (perform (create f) d) (apply_request (create f) c)
  unfolding perform apply_request
  create-Shows = record {
    same =
        updated f (kept_or_new (c.shows f) (leb max_dynamic_files c.size)) d (file_new f d).1 c t
          kept_or_new-Shows (λ g hg n. new_other f g d s hg n);
    counts = one_more-Shows;
  }

  scan-Shows : (a : ℕ) → Shows (perform (scan f a) d) (apply_request (scan f a) c)
  unfolding perform apply_request
  scan-Shows a = record {
    same =
        updated f (relinked (kept_or_new (c.shows f) (leb max_dynamic_files c.size)) a) d
          (scan_file f a d) c t
          (scan_same f a d s h ∙ ap (λ (v : Option (Option ℕ)). relinked v a) kept_or_new-Shows)
          (λ g hg n. scan_other f g a d s hg n);
    counts = scan-count f a d ∙ one_more-Shows;
  }

  remove-Shows : Shows (perform (remove f) d) (apply_request (remove f) c)
  unfolding perform apply_request
  remove-Shows = record {
    same =
        updated f none d (delete_dynamic_file (search_dynamic_file f d) d).1 c t
          (delete_same f d s h) (λ g hg n. delete_other f g d s hg n);
    counts =
        delete-count f d s h
        ∙ ap (λ (v : Option (Option ℕ)). one_less v d.count) (t.same f h)
        ∙ ap (one_less (c.shows f)) t.counts;
  }

perform-Shows :
    (r : Request) (d : DynamicFiles) (c : Catalog)
    → IsSound d
    → Shows d c
    → IsLive (asked r)
    → Shows (perform r d) (apply_request r c)
perform-Shows (create f) d c s t h = create-Shows d c s t f h
perform-Shows (scan f a) d c s t h = scan-Shows d c s t f h a
perform-Shows (remove f) d c s t h = remove-Shows d c s t f h

pub run_requests-Shows :
    (rs : List Request) (d : DynamicFiles) (c : Catalog)
    → IsSound d
    → Shows d c
    → All (λ r. IsLive (asked r)) rs
    → Shows (run_requests rs d) (apply_requests rs c)
unfolding run_requests apply_requests
run_requests-Shows [] d c s t h = t
run_requests-Shows (r ∷ rs) d c s t h =
    run_requests-Shows rs (perform r d) (apply_request r c) (perform-IsSound r d s)
      (perform-Shows r d c s t h.0) h.1

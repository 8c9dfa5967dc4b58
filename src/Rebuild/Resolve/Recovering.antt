-- ===== src/Rebuild/Resolve/Recovering.antt =====
-- The rounds of recovery of buildTree (internal/indexer/indexer.go) end, with a row for each record.
use tdrive.Rebuild.Ids.{Ulid}
use tdrive.Base.{
  ℕ, zero, suc, ◌≤◌, ◌<◌, ◌≡◌, refl, ap, ◌∙◌, Bool, true, false, Option, some, List, [], ◌∷◌, arith,
  if◌then◌else◌, length,
}
use tdrive.Rebuild.Resolve.{
  DirRecord, Row, without_row, put_row, row_below, place, tops_of, lowest, or_lowest, no_tops,
  ◌>>=ₒ◌, recovered_root, recovery_row, rescue, with_folder, recover, build_tree,
}
use tdrive.Rebuild.Resolve.Resolution.{
  Keeps, Gains, waiting, waiting-length, waiting-Keeps, waiting-Gains, resolved_head, Keeps-put_row,
}
use tdrive.Rebuild.Resolve.Placing.{place-total}
use tdrive.Rebuild.Resolve.Pending.{Pending, AllResolved, found_head, Work, round-Work}

module _ (recovered_id : Ulid) where
  rescue-Keeps : (ts : List DirRecord) (rows : List Row) → Keeps rows (rescue recovered_id ts rows)
  rescue-Keeps [] rows id t = t
  rescue-Keeps (d ∷ ds) rows id t =
      let r = row_below d (some recovered_id) (recovered_root recovered_id) in
      rescue-Keeps ds (put_row r rows) id (Keeps-put_row r rows id t)

  with_folder-Keeps :
      (rescued : Bool) (rows : List Row) → Keeps rows (with_folder recovered_id rescued rows)
  with_folder-Keeps true rows id t = t
  with_folder-Keeps false rows id t = Keeps-put_row (recovery_row recovered_id) rows id t

  -- The rows of a round before its paths are settled.
  abbrev re_rooted : List DirRecord → Bool → List Row → List Row
  re_rooted ts rescued rows = rescue recovered_id ts (with_folder recovered_id rescued rows)

  re_rooted-Keeps :
      (ts : List DirRecord) (rescued : Bool) (rows : List Row)
      → Keeps rows (re_rooted ts rescued rows)
  re_rooted-Keeps ts rescued rows id t =
      rescue-Keeps ts (with_folder recovered_id rescued rows) id
        (with_folder-Keeps rescued rows id t)

  re_rooted-Gains :
      (t : DirRecord) (ts dirs : List DirRecord) (rescued : Bool) (rows : List Row)
      → Pending (t ∷ ts) dirs rows
      → Gains dirs rows (re_rooted (t ∷ ts) rescued rows)
  re_rooted-Gains t ts dirs rescued rows p =
      let r = row_below t (some recovered_id) (recovered_root recovered_id) in
      let start = with_folder recovered_id rescued rows in
      let both = p (t.id) (found_head t ts) in
      (
        t.id,
        both.0,
        both.1,
        rescue-Keeps ts (put_row r start) (t.id) (resolved_head r (without_row (r.id) start)),
      )

  -- One round, and those after it where there is work.
  module _ (rounds : ℕ) (dirs : List DirRecord) where
    abbrev round : List DirRecord → Bool → List Row → Option (List Row)
    round ts rescued rows =
        let placed = place (suc (length dirs)) dirs (re_rooted ts rescued rows) in
        let again = placed >>=ₒ recover recovered_id rounds dirs true in
        if no_tops ts then some rows else again

    abbrev Resolves : Option (List Row) → Type 0
    Resolves o = (after : List Row) × (o ≡ some after) × AllResolved dirs after

    round-Resolves :
        (ts : List DirRecord) (rescued : Bool) (rows : List Row)
        → Work ts dirs rows
        → waiting dirs rows ≤ rounds
        → ((next : List Row)
            → waiting dirs next < rounds
            → Resolves (recover recovered_id rounds dirs true next))
        → Resolves (round ts rescued rows)
    round-Resolves [] rescued rows w l rest = (rows, refl, w)
    round-Resolves (t ∷ ts) rescued rows w l rest =
        let start = re_rooted (t ∷ ts) rescued rows in
        let less =
          waiting-Gains dirs rows start (re_rooted-Keeps (t ∷ ts) rescued rows)
            (re_rooted-Gains t ts dirs rescued rows w) in
        let enough : waiting dirs start < suc (length dirs) =
          ground (arith, waiting-length dirs start) in
        let (next, e, k) = place-total (suc (length dirs)) dirs start enough in
        let fewer = waiting-Keeps dirs start next k in
        let (after, f, a) = rest next (ground (arith, l, less, fewer)) in
        (after, ap (λ o. o >>=ₒ recover recovered_id rounds dirs true) e ∙ f, a)

  recover-Resolves :
      (rounds : ℕ) (dirs : List DirRecord) (rescued : Bool) (rows : List Row)
      → waiting dirs rows < rounds
      → Resolves rounds dirs (recover recovered_id rounds dirs rescued rows)
  unfolding recover
  recover-Resolves zero dirs rescued rows l = ground arith
  recover-Resolves (suc rounds) dirs rescued rows l =
      round-Resolves rounds dirs (or_lowest (tops_of dirs dirs rows) (lowest dirs rows)) rescued
        rows (round-Work dirs rows) (ground (arith, l))
        (λ next m. recover-Resolves rounds dirs true next m)

  -- buildTree returns, whatever parents the captions name, cycles and lost ones included: as many
  -- passes and rounds as there are directory records, and one more, are enough. Each record that was
  -- found has a row then.
  pub build_tree-AllResolved :
      (dirs : List DirRecord)
      → (rows : List Row) × (build_tree recovered_id dirs ≡ some rows) × AllResolved dirs rows
  unfolding build_tree
  build_tree-AllResolved dirs =
      let enough : waiting dirs [] < suc (length dirs) = ground (arith, waiting-length dirs []) in
      let (first, e, k) = place-total (suc (length dirs)) dirs [] enough in
      let bound : waiting dirs first < suc (length dirs) =
        ground (arith, waiting-length dirs first) in
      let (after, f, a) = recover-Resolves (suc (length dirs)) dirs false first bound in
      (after, ap (λ o. o >>=ₒ recover recovered_id (suc (length dirs)) dirs false) e ∙ f, a)

-- ===== src/Raft/Node/Following.antt =====
-- `handle_append_entries` of raft/node.py, from the request to the log that it leaves.
use container_platform.Prelude.{
  ℕ, ◌+◌, ◌-◌, ◌≤◌, ◌<◌, min, max, ◌≡◌, refl, sym, ap, ◌∙◌, true, false, some, List, ◌++◌, arith,
  length, get_elem?, take, drop, ltb, leb, if◌then◌else◌, length-append, take-append-drop,
  length-take, get_elem?-append, get_elem?-append_left, get_elem?-take,
}
use container_platform.Raft.Log
use container_platform.Raft.Log.{LogEntry, RaftLog, last_index, term_at}
use container_platform.Raft.Log.Contiguous.{
  IsContiguous, IsWellFormed, IsContiguous-append, IsContiguous-get_elem?, IsContiguous-take,
  IsContiguous-drop, last_index-IsWellFormed,
}
use container_platform.Raft.Log.Indices.{
  SameLog, IsWellFormed-SameLog, get-SameLog, index-get, last_index-SameLog,
}
use container_platform.Raft.Node.{
  RaftNode, Moment, AppendRequest, AppendReply, merge_entries, handle_append_entries,
  receive_append, check_term,
}
use container_platform.Raft.Node.Merging.{
  merged, merge_entries-SameLog, merged_terms, Agrees, merged_agreeing, merged-IsContiguous,
  length-merged,
}

-- The entries of a log on both sides of an index, and the log that the loop leaves.
module _ (l : RaftLog) (prev : ℕ) (es : List LogEntry) (wf : IsWellFormed l)
    (low : l.snapshot_last_index ≤ prev) (high : prev ≤ last_index l) where
  abbrev kept : ℕ
  kept = prev - l.snapshot_last_index

  abbrev tail : List LogEntry
  tail = drop kept l.entries

  length-kept : length (take kept l.entries) ≡ kept
  length-kept = omega (arith, length-take kept l.entries, last_index-IsWellFormed l wf)

  at_prev : l.snapshot_last_index + kept ≡ prev
  at_prev = omega arith

  tail-IsContiguous : IsContiguous prev tail
  tail-IsContiguous =
      let short : kept ≤ length l.entries = omega (arith, last_index-IsWellFormed l wf) in
      rw at_prev at (IsContiguous-drop l.snapshot_last_index kept l.entries short wf)

  after :
      SameLog
        (merge_entries (prev + 1) es l)
        (record l { entries = take kept l.entries ++ merged tail es })
  after =
      merge_entries-SameLog (prev + 1) es l (take kept l.entries) tail
        (sym (take-append-drop kept l.entries)) (omega (arith, length-kept))

  merge-IsWellFormed : IsContiguous prev es → IsWellFormed (merge_entries (prev + 1) es l)
  merge-IsWellFormed next = IsWellFormed-SameLog after (
      IsContiguous-append l.snapshot_last_index (take kept l.entries) (merged tail es)
        (IsContiguous-take l.snapshot_last_index kept l.entries wf)
        (rw (length-kept, at_prev) (merged-IsContiguous prev tail es tail-IsContiguous next)))

  get-merge_below : (j : ℕ) → j ≤ prev → Log.get j (merge_entries (prev + 1) es l) ≡ Log.get j l
  get-merge_below j h =
      get-SameLog j after
      ∙ (unfold Log.get in
          ground (
            arith,
            get_elem?-append_left (take kept l.entries) (merged tail es)
                (j - l.snapshot_last_index - 1),
            get_elem?-take l.entries kept (j - l.snapshot_last_index - 1),
            length-kept,
          ))

  get-merge :
      (k : ℕ) (e : LogEntry)
      → get_elem? es k ≡ some e
      → (f : LogEntry) × (Log.get (prev + 1 + k) (merge_entries (prev + 1) es l) ≡ some f)
        × (f.term ≡ e.term)
  get-merge k e h =
      let (f, found, same) = merged_terms tail es k e h in
      let q : prev + 1 + k - l.snapshot_last_index - 1 ≡ length (take kept l.entries) + k =
        omega (arith, length-kept) in
      let above : leb (prev + 1 + k) l.snapshot_last_index ≡ false = ground arith in
      let there : Log.get (prev + 1 + k)
            (record l { entries = take kept l.entries ++ merged tail es })
          ≡ get_elem? (merged tail es) k =
        unfold Log.get in
        rw (above, q) (get_elem?-append (take kept l.entries) (merged tail es) k) in
      (f, get-SameLog (prev + 1 + k) after ∙ there ∙ found, same)

  last_index-merge :
      IsContiguous prev es → prev + length es ≤ last_index (merge_entries (prev + 1) es l)
  last_index-merge next =
      rw
        (
          last_index-IsWellFormed (merge_entries (prev + 1) es l) (merge-IsWellFormed next),
          after.entries,
          after.snapshot_last_index,
        )
        (omega (
          arith,
          length-append (take kept l.entries) (merged tail es),
          length-kept,
          length-merged tail es,
        ))

  merge_agreeing : Agrees tail es → SameLog (merge_entries (prev + 1) es l) l
  merge_agreeing h = record {
    entries =
        after.entries
        ∙ ap (λ t. take kept l.entries ++ t) (merged_agreeing tail es h)
        ∙ take-append-drop kept l.entries;
    snapshot_last_index = after.snapshot_last_index;
    snapshot_last_term = after.snapshot_last_term;
    durable = after.durable;
  }

-- What a reply of success says of the request.
record IsAccepted (r : AppendRequest) (n k : RaftNode) (reply : AppendReply) : Type 0 where
  reaches : r.prev_log_index ≤ last_index n.log
  log : k.log ≡ merge_entries (r.prev_log_index + 1) r.entries n.log
  match_index : reply.match_index ≡ last_index k.log
  commit_index : k.commit_index ≡ (
      if ltb n.commit_index r.leader_commit
      then min r.leader_commit (last_index k.log)
      else n.commit_index)

receive_append-IsAccepted :
    (m : Moment) (r : AppendRequest) (n : RaftNode)
    → (receive_append m r n).1.success ≡ true
    → IsAccepted r n (receive_append m r n).0 (receive_append m r n).1
unfolding receive_append
receive_append-IsAccepted m r n h = record {
  reaches = ground arith;
  log = ground arith;
  match_index = ground arith;
  commit_index = ground arith;
}

same-check_term :
    (m : Moment) (t : ℕ) (n : RaftNode)
    → ((check_term m t n).log ≡ n.log) × ((check_term m t n).commit_index ≡ n.commit_index)
unfolding check_term
same-check_term m t n = ground arith

IsAccepted-from :
    {r : AppendRequest} {n n' k : RaftNode} {reply : AppendReply}
    → n'.log ≡ n.log
    → n'.commit_index ≡ n.commit_index
    → IsAccepted r n' k reply
    → IsAccepted r n k reply
IsAccepted-from log commit a = record {
  reaches = rw log at a.reaches;
  log = rw log at a.log;
  match_index = a.match_index;
  commit_index = rw commit at a.commit_index;
}

handle_append_entries_lem :
    (m : Moment) (r : AppendRequest) (n : RaftNode)
    → handle_append_entries m r n ≡ receive_append m r (check_term m r.term n)
unfolding handle_append_entries
handle_append_entries_lem m r n = refl

handle-IsAccepted :
    (m : Moment) (r : AppendRequest) (n : RaftNode)
    → (handle_append_entries m r n).1.success ≡ true
    → IsAccepted r n (handle_append_entries m r n).0 (handle_append_entries m r n).1
handle-IsAccepted m r n = rw (handle_append_entries_lem m r n) λ h.
    let (log, commit) = same-check_term m r.term n in
    IsAccepted-from log commit (receive_append-IsAccepted m r (check_term m r.term n) h)

module _ (m : Moment) (r : AppendRequest) (n : RaftNode) (wf : IsWellFormed n.log)
    (low : n.log.snapshot_last_index ≤ r.prev_log_index)
    (next : IsContiguous r.prev_log_index r.entries)
    (accepted : (handle_append_entries m r n).1.success ≡ true) where
  abbrev k : RaftNode
  k = (handle_append_entries m r n).0

  abbrev reply : AppendReply
  reply = (handle_append_entries m r n).1

  facts : IsAccepted r n k reply
  facts = handle-IsAccepted m r n accepted

  -- After a reply of success, on a well-formed log whose snapshot ends at the agreed index or
  -- before, and with contiguous sent entries, the log has, at every index that an entry was sent
  -- for, an entry of the sent term with that index.
  pub append_entries_agrees :
      (i : ℕ) (e : LogEntry)
      → get_elem? r.entries i ≡ some e
      → (f : LogEntry) × (Log.get (r.prev_log_index + 1 + i) k.log ≡ some f)
        × (f.term ≡ e.term)
        × (f.index ≡ e.index)
  append_entries_agrees i e h =
      let (f, found, same) =
        get-merge n.log r.prev_log_index r.entries wf low facts.reaches i e h in
      let whole = merge-IsWellFormed n.log r.prev_log_index r.entries wf low facts.reaches next in
      let at = index-get _ (r.prev_log_index + 1 + i) f whole found in
      let sent = IsContiguous-get_elem? r.prev_log_index r.entries i next h in
      rw facts.log (f, found, same, omega arith)

  -- After a reply of success, in the same conditions, the entries up to the agreed index are
  -- untouched, the log is well-formed, and it reaches at least to the last entry that was sent.
  pub append_entries_keeps :
      (j : ℕ)
      → j ≤ r.prev_log_index
      → (Log.get j k.log ≡ Log.get j n.log)
        × IsWellFormed k.log
        × (r.prev_log_index + length r.entries ≤ last_index k.log)
  append_entries_keeps j h = rw facts.log (
    get-merge_below n.log r.prev_log_index r.entries wf low facts.reaches j h,
    merge-IsWellFormed n.log r.prev_log_index r.entries wf low facts.reaches next,
    last_index-merge n.log r.prev_log_index r.entries wf low facts.reaches next,
  )

  -- A success that leaves the log at least as long as the commit index never moves the commit
  -- index back, nor past the end of the log, nor past the leader's.
  pub append_entries-commit :
      n.commit_index ≤ last_index k.log
      → (n.commit_index ≤ k.commit_index)
        × (k.commit_index ≤ last_index k.log)
        × (k.commit_index ≤ max n.commit_index r.leader_commit)
  append_entries-commit h = ground (arith, facts.commit_index)

  -- A request whose entries are all in the log already, an old one that comes late for instance,
  -- leaves every entry of the log in its place.
  pub append_entries_again :
      Agrees (drop (r.prev_log_index - n.log.snapshot_last_index) n.log.entries) r.entries
      → (k.log.entries ≡ n.log.entries) × (reply.match_index ≡ last_index n.log)
  append_entries_again h =
      let same = merge_agreeing n.log r.prev_log_index r.entries wf low facts.reaches h in
      rw (facts.match_index, facts.log) (same.entries, last_index-SameLog same)

  -- When a request's entries are all in the log and end below the end of the log, the reply of
  -- success claims more than was compared: its match index lies above the last index that was sent.
  pub append_entries_overclaims :
      Agrees (drop (r.prev_log_index - n.log.snapshot_last_index) n.log.entries) r.entries
      → r.prev_log_index + length r.entries < last_index n.log
      → r.prev_log_index + length r.entries < reply.match_index
  append_entries_overclaims h more = omega (arith, (append_entries_again h).1)

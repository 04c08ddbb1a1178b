-- ===== src/Memory/Laws.antt =====
-- The engine in memory, with its laws.
use chekin_interview.Database.{Engine}
use chekin_interview.Database.Sessions.{SessionMaker}
use chekin_interview.Memory.{
  Memory, ghost, flush, rollback, commit, get_key, get_account, lock_account, select_entries,
  refresh, now, uuid4,
}
use chekin_interview.Memory.Reads.{
  get_key_reads, get_account_reads, get_account_idle, select_entries_reads, lock_account_holds,
  refresh_reads, now_reads, uuid4_local,
}
use chekin_interview.Memory.Writes.{flush_writes, commit_lands, rollback_ends}

abbrev pub memory : Engine
memory = record {
  Session = Memory;
  ghost = ghost;
  get_key = get_key;
  get_account = get_account;
  lock_account = lock_account;
  flush = flush;
  commit = commit;
  rollback = rollback;
  refresh = refresh;
  now = now;
  uuid4 = uuid4;
  select_entries = select_entries;
  get_key_reads = get_key_reads;
  get_account_reads = get_account_reads;
  get_account_idle = get_account_idle;
  select_entries_reads = select_entries_reads;
  lock_account_holds = lock_account_holds;
  flush_writes = flush_writes;
  commit_lands = commit_lands;
  rollback_ends = rollback_ends;
  refresh_reads = refresh_reads;
  now_reads = now_reads;
  uuid4_local = uuid4_local;
}

-- A new session, and one that is closed, has nothing open.
abbrev pub sessions : SessionMaker memory
sessions = record {
  new_session = rollback;
  close = rollback;
  new_session_idle = rollback_ends;
  close_ends = rollback_ends;
}

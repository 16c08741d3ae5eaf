-- ===== src/Kepaxos/Log.antt =====
-- The replica log of src/kepaxos_log.c: a directory for each key, with its last sequence number
-- and ballot, and a directory of links from ballots to keys.
--
-- Files are taken to work: of the calls of the file system only symlink fails, where its name
-- exists. A directory is named after the first and last byte of the key and two hashes of it
-- (sip_hash24): that name is the argument `path`.
use libgroupcache.Base.{ℕ, Option, none, some, List, ltb, ◌==◌, if◌then◌else◌, update}

-- struct _kepaxos_log_s, and the files: what a key's directory has in `seq` and `ballot`, and the
-- directory that the link of a ballot leads to.
pub record Log : Type 0 where
  pub max_ballot : ℕ
  pub dirs : ℕ → Option (ℕ × ℕ)
  pub links : ℕ → Option ℕ

-- The sequence number and the ballot in a directory, 0 if it does not exist.
abbrev pub entry : Log → ℕ → ℕ × ℕ
entry log d = elim (log.dirs d) [ none ↦ (0, 0) | some e ↦ e ]

-- kepaxos_last_seq_for_key: the sequence number and, for callers that ask, the ballot.
unfoldable pub last_seq_for_key : (List ℕ → ℕ) → Log → List ℕ → ℕ × ℕ
last_seq_for_key path log key = entry log (path key)

-- The link of the ballot that a directory had goes, unless that ballot is 0.
unfoldable pub unlink : (ℕ → Option ℕ) → ℕ → ℕ → Option ℕ
unlink links old = if old == 0 then links else update links old none

-- symlink fails where there is a file of that name, and then nothing changes.
unfoldable pub symlink : (ℕ → Option ℕ) → ℕ → ℕ → ℕ → Option ℕ
symlink links ballot d = elim (links ballot) [
  | none ↦ update links ballot (some d)
  | some _ ↦ links
]

-- kepaxos_set_last_seq_for_key
unfoldable pub set_last_seq_for_key : (List ℕ → ℕ) → Log → List ℕ → ℕ → ℕ → Log
set_last_seq_for_key path log key ballot seq = record {
  max_ballot = if ltb log.max_ballot ballot then ballot else log.max_ballot;
  dirs = update log.dirs (path key) (some (seq, ballot));
  links = symlink (unlink log.links (entry log (path key)).1) ballot (path key);
}

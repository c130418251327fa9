-- ===== src/Upstream/Apply.antt =====
-- crates/core/src/upstream.rs: `UpstreamManager::apply`, a reload of the set of servers. The
-- upstreams live on a heap, since callers keep the one that they looked up across a reload.
pub mod Turn
pub mod Served
pub mod Entry
pub mod Kept
pub mod Reenable
use mathlib.Core.Logic.{ite}
use mcpgw.Base.{
  ℕ, suc, ◌+◌, Bool, true, false, not, ◌&&◌, Option, none, some, List, [], ◌∷◌, ◌++◌, ◌==◌,
  is_empty, if◌then◌else◌,
}
use mcpgw.Base.Bytes.{Text}
use mcpgw.Base.Map.{Map, get, contains_key, insert}
use mcpgw.Config.Server.{Server, Server-discrete, Transport-discrete}
use mcpgw.Upstream.Slot.{Upstream, upstream_publishing, retire}

pub record Changes : Type 0 where
  pub added : List Text
  pub replaced : List Text
  pub removed : List Text
  pub stopped : List Text

unfoldable pub changes_is_empty : Changes → Bool
changes_is_empty c =
    is_empty c.added && is_empty c.replaced && is_empty c.removed && is_empty c.stopped

pub data ListChanged : Type 0 where
  tools resources prompts : ListChanged

abbrev pub Heap : Type 0
Heap = ℕ → Upstream

abbrev pub update : Heap → ℕ → Upstream → Heap
update heap id u other = if id == other then u else heap other

pub record Manager : Type 0 where
  pub upstreams : Map ℕ
  pub heap : Heap
  -- The next entry's and the next channel's identity.
  pub fresh : ℕ
  pub channels : ℕ

-- What the loop of `apply` carries from one server to the next.
pub record Pass : Type 0 where
  pub upstreams : Map ℕ
  pub heap : Heap
  pub fresh : ℕ
  pub channels : ℕ
  pub changes : Changes
  pub retire : List ℕ
  pub announce : List ℕ

-- What a reload means for one server of the new config.
pub data Verdict : Type 0 where
  same edited stopped replaced : Verdict

unfoldable pub compare_servers : Server → Server → Verdict
compare_servers old server = ite (Server-discrete old server) same (
    ite (Transport-discrete old.transport server.transport)
      (if old.enabled && not server.enabled then stopped else edited) replaced)

abbrev add_new : Text → Server → Pass → Pass
add_new name server p = record p {
  changes = record (p.changes) { added = p.changes.added ++ name ∷ [] };
  upstreams = insert name p.fresh p.upstreams;
  heap = update p.heap p.fresh (upstream_publishing server p.channels);
  fresh = suc p.fresh;
  channels = suc p.channels;
}

abbrev pub with_server : Server → Upstream → Upstream
with_server server u = record u { server = server }

abbrev store : ℕ → Server → Heap → Heap
store id server heap = update heap id (with_server server (heap id))

abbrev settle_verdict : Text → Server → ℕ → Pass → Verdict → Pass
settle_verdict name server id p same = record p { upstreams = insert name id p.upstreams }
settle_verdict name server id p edited = record p {
  upstreams = insert name id p.upstreams;
  heap = store id server p.heap;
}
settle_verdict name server id p stopped = record p {
  upstreams = insert name id p.upstreams;
  heap = store id server p.heap;
  changes = record (p.changes) { stopped = p.changes.stopped ++ name ∷ [] };
  retire = p.retire ++ id ∷ [];
}
settle_verdict name server id p replaced = record p {
  upstreams = insert name p.fresh p.upstreams;
  heap = update p.heap p.fresh (upstream_publishing server (p.heap id).changes);
  fresh = suc p.fresh;
  changes = record (p.changes) { replaced = p.changes.replaced ++ name ∷ [] };
  retire = p.retire ++ id ∷ [];
  announce = p.announce ++ (p.heap id).changes ∷ [];
}

abbrev visit_found : Text → Server → Pass → Option ℕ → Pass
visit_found name server p none = add_new name server p
visit_found name server p (some id) =
    settle_verdict name server id p (compare_servers (p.heap id).server server)

-- One turn of the first loop.
unfoldable pub visit : Map ℕ → Text → Server → Pass → Pass
visit current name server p = visit_found name server p (get name current)

unfoldable pub visit_all : Map ℕ → Map Server → Pass → Pass
visit_all current [] p = p
visit_all current ((name, server) ∷ servers) p =
    visit_all current servers (visit current name server p)

abbrev drop_one : Text → ℕ → Bool → Pass → Pass
drop_one name id true p = p
drop_one name id false p = record p {
  changes = record (p.changes) { removed = p.changes.removed ++ name ∷ [] };
  retire = p.retire ++ id ∷ [];
}

-- The second loop, over the entries that were there before.
unfoldable pub drop_missing : Map ℕ → Pass → Pass
drop_missing [] p = p
drop_missing ((name, id) ∷ current) p =
    drop_missing current (drop_one name id (contains_key name p.upstreams) p)

unfoldable pub retire_all : List ℕ → Heap → Heap
unfolding retire
retire_all [] heap = heap
retire_all (id ∷ ids) heap = retire_all ids (update heap id (retire (heap id)))

unfoldable pub announcements : List ℕ → List (ℕ × ListChanged)
announcements [] = []
announcements (channel ∷ channels) =
    (channel, tools) ∷ (channel, resources) ∷ (channel, prompts) ∷ announcements channels

unfoldable pub start : Manager → Pass
start m = record {
  upstreams = [];
  heap = m.heap;
  fresh = m.fresh;
  channels = m.channels;
  changes = record { added = []; replaced = []; removed = []; stopped = [] };
  retire = [];
  announce = [];
}

unfoldable pub pass : Manager → Map Server → Pass
unfolding start
pass m servers = drop_missing m.upstreams (visit_all m.upstreams servers (start m))

-- The new set, what changed, and what is announced on which channel.
unfoldable pub apply : Manager → Map Server → Manager × Changes × List (ℕ × ListChanged)
unfolding pass
apply m servers =
    let p = pass m servers in
    (
      record {
        upstreams = p.upstreams;
        heap = retire_all p.retire p.heap;
        fresh = p.fresh;
        channels = p.channels;
      },
      p.changes,
      announcements p.announce,
    )

unfoldable pub server_at : Map ℕ → Heap → Text → Option Server
server_at upstreams heap name = elim (get name upstreams) [
  | none ↦ none
  | some id ↦ some (heap id).server
]

-- UpstreamManager::server
unfoldable pub server : Manager → Text → Option Server
unfolding server_at
server m name = server_at m.upstreams m.heap name

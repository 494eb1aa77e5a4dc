-- ===== src/Db/Orgs/Outside.antt =====
-- The tables without the rows of one organization, under the statements of src/db/orgs.rs.
use ruskery.Common.{
  ◌≡◌, refl, ◌∙◌, ap, Bool, true, false, not, ◌&&◌, Option, none, some, List, [], ◌∷◌, Str, str_eq,
  str_eq_iff, str_eq_refl, arith, any, filter, unwrap_or, option_map, find_row-In, any-In,
  any_of-In, Bool-cases, inl, inr,
}
use ruskery.Models.Role
use ruskery.Models.Role.{OrgRole}
use ruskery.Db.{
  Db, OrgMember, Repository, Team, TeamMember, TeamRepoPerm, Manifest, ManifestBlob,
  ManifestManifest, ManifestReferrer, Tag, ImagePull, AccessToken, AuditRow,
}
use ruskery.Db.Audit.{record_event}
use ruskery.Db.Orgs.{upsert_member, put_member, is_member_row, remove_member, find_repo}
use ruskery.Db.Orgs.Teams.{
  upsert_team_member, upsert_team_perm, is_team_member, is_team_perm, add_team_member,
  remove_team_member, set_team_repo_perm, find_team, has_slug,
}
use ruskery.Db.Orgs.Views.{delete_repo, gone, refers}

abbrev pub own_repo : Db → Str → Str → Bool
own_repo db org_id repo_id =
    any (λ (r : Repository). str_eq r.org_id org_id && str_eq r.id repo_id) db.repositories

abbrev pub own_team : Db → Str → Str → Bool
own_team db org_id team_id =
    any (λ (t : Team). str_eq t.org_id org_id && str_eq t.id team_id) db.teams

abbrev pub names : (Str → Bool) → Option Str → Bool
names p o = unwrap_or (option_map p o) false

-- `db` without what belongs to the organization: its members, repositories, teams, pull counters and
-- audit records, and what refers to one of its repositories or teams. These are those of `before`.
unfoldable pub outside : Db → Str → Db → Db
outside before org_id db =
    let repo = own_repo before org_id in
    record db {
      org_members = filter (λ (m : OrgMember). not (str_eq m.org_id org_id)) db.org_members;
      repositories = filter (λ (r : Repository). not (str_eq r.org_id org_id)) db.repositories;
      teams = filter (λ (t : Team). not (str_eq t.org_id org_id)) db.teams;
      team_members =
          filter (λ (m : TeamMember). not (own_team before org_id m.team_id)) db.team_members;
      team_repo_perms = filter (λ (p : TeamRepoPerm). not (repo p.repo_id)) db.team_repo_perms;
      manifests = filter (λ (m : Manifest). not (repo m.repo_id)) db.manifests;
      manifest_blobs = filter (λ (m : ManifestBlob). not (repo m.repo_id)) db.manifest_blobs;
      manifest_manifests =
          filter (λ (m : ManifestManifest). not (repo m.repo_id)) db.manifest_manifests;
      manifest_referrers =
          filter (λ (m : ManifestReferrer). not (repo m.repo_id)) db.manifest_referrers;
      tags = filter (λ (t : Tag). not (repo t.repo_id)) db.tags;
      image_pulls = filter (λ (p : ImagePull). not (str_eq p.org_id org_id)) db.image_pulls;
      access_tokens =
          filter (λ (t : AccessToken). not (names repo t.scope_repo_id)) db.access_tokens;
      audit_log =
          filter (λ (a : AuditRow). not (names (λ o. str_eq o org_id) a.org_id)) db.audit_log;
    }

-- Rows that a filter drops anyway may be dropped before.
filter-filter {ℓ} :
    {A : Type ℓ} (q p : A → Bool) (xs : List A)
    → ((x : A) → p x ≡ false → q x ≡ false)
    → filter q (filter p xs) ≡ filter q xs
filter-filter q p [] h = refl
filter-filter q p (x ∷ xs) h = elim (Bool-cases (p x)) [
  | inl t ↦ ground (arith, t, filter-filter q p xs h)
  | inr f ↦ ground (arith, f, h x f, filter-filter q p xs h)
]

module _ (before : Db) (org_id : Str) where
  pub outside-record_event :
      (db : Db) (now : Str) (actor : Option Str) (action : Str) (target detail : Option Str)
      → outside before org_id (record_event db now actor (some org_id) action target detail)
        ≡ outside before org_id db
  unfolding outside
  outside-record_event db now actor action target detail = rw (outside, str_eq_refl org_id) refl

  filter-upsert_member :
      (user_id role : Str) (ms : List OrgMember)
      → filter
          (λ (m : OrgMember). not (str_eq m.org_id org_id))
          (upsert_member org_id user_id role ms)
        ≡ filter (λ (m : OrgMember). not (str_eq m.org_id org_id)) ms
  unfolding upsert_member
  filter-upsert_member user_id role [] = rw (str_eq_refl org_id) refl
  filter-upsert_member user_id role (m ∷ ms) = ground (arith, filter-upsert_member user_id role ms)

  pub outside-put_member :
      (db : Db) (user_id : Str) (role : OrgRole)
      → outside before org_id (put_member db org_id user_id role) ≡ outside before org_id db
  unfolding outside put_member
  outside-put_member db user_id role =
      ap (λ ms. record (outside before org_id db) { org_members = ms })
        (filter-upsert_member user_id (Role.as_str role) db.org_members)

  pub outside-remove_member :
      (db : Db) (user_id : Str)
      → outside before org_id (remove_member db org_id user_id) ≡ outside before org_id db
  unfolding outside remove_member
  outside-remove_member db user_id =
      ap (λ ms. record (outside before org_id db) { org_members = ms })
        (filter-filter (λ (m : OrgMember). not (str_eq m.org_id org_id))
          (λ m. not (is_member_row org_id user_id m)) db.org_members (λ m h. ground (arith, h)))

  filter-upsert_team_member :
      (team_id user_id role : Str) (ms : List TeamMember)
      → own_team before org_id team_id ≡ true
      → filter
          (λ (m : TeamMember). not (own_team before org_id m.team_id))
          (upsert_team_member team_id user_id role ms)
        ≡ filter (λ (m : TeamMember). not (own_team before org_id m.team_id)) ms
  unfolding upsert_team_member
  filter-upsert_team_member team_id user_id role [] own = rw (own) refl
  filter-upsert_team_member team_id user_id role (m ∷ ms) own =
      elim (Bool-cases (is_team_member team_id user_id m)) [
        | inl t ↦
            let same : m.team_id ≡ team_id = ground (arith, t, str_eq_iff m.team_id team_id) in
            let mine : own_team before org_id m.team_id ≡ true =
              ap (own_team before org_id) same ∙ own in
            rw (t, mine) refl
        | inr f ↦ rw (f) (ground (arith, filter-upsert_team_member team_id user_id role ms own))
      ]

  filter-upsert_team_perm :
      (team_id repo_id permission : Str) (ps : List TeamRepoPerm)
      → own_repo before org_id repo_id ≡ true
      → filter
          (λ (p : TeamRepoPerm). not (own_repo before org_id p.repo_id))
          (upsert_team_perm team_id repo_id permission ps)
        ≡ filter (λ (p : TeamRepoPerm). not (own_repo before org_id p.repo_id)) ps
  unfolding upsert_team_perm
  filter-upsert_team_perm team_id repo_id permission [] own = rw (own) refl
  filter-upsert_team_perm team_id repo_id permission (p ∷ ps) own =
      elim (Bool-cases (is_team_perm team_id repo_id p)) [
        | inl t ↦
            let same : p.repo_id ≡ repo_id = ground (arith, t, str_eq_iff p.repo_id repo_id) in
            let mine : own_repo before org_id p.repo_id ≡ true =
              ap (own_repo before org_id) same ∙ own in
            rw (t, mine) refl
        | inr f ↦ rw (f) (ground (arith, filter-upsert_team_perm team_id repo_id permission ps own))
      ]

  pub outside-add_team_member :
      (db : Db) (team_id user_id role : Str)
      → own_team before org_id team_id ≡ true
      → outside before org_id (add_team_member db team_id user_id role) ≡ outside before org_id db
  unfolding outside add_team_member
  outside-add_team_member db team_id user_id role own =
      ap (λ ms. record (outside before org_id db) { team_members = ms })
        (filter-upsert_team_member team_id user_id role db.team_members own)

  pub outside-remove_team_member :
      (db : Db) (team_id user_id : Str)
      → own_team before org_id team_id ≡ true
      → outside before org_id (remove_team_member db team_id user_id) ≡ outside before org_id db
  unfolding outside remove_team_member
  outside-remove_team_member db team_id user_id own =
      ap (λ ms. record (outside before org_id db) { team_members = ms })
        (filter-filter (λ (m : TeamMember). not (own_team before org_id m.team_id))
          (λ m. not (is_team_member team_id user_id m)) db.team_members
          (λ m h.
            let same : m.team_id ≡ team_id = ground (arith, h, str_eq_iff m.team_id team_id) in
            ap not (ap (own_team before org_id) same ∙ own)))

  pub outside-set_team_repo_perm :
      (db : Db) (team_id repo_id permission : Str)
      → own_repo before org_id repo_id ≡ true
      → outside before org_id (set_team_repo_perm db team_id repo_id permission)
        ≡ outside before org_id db
  unfolding outside set_team_repo_perm
  outside-set_team_repo_perm db team_id repo_id permission own =
      ap (λ ps. record (outside before org_id db) { team_repo_perms = ps })
        (filter-upsert_team_perm team_id repo_id permission db.team_repo_perms own)

-- What is found is the organization's own.
pub own_team-find_team :
    (db : Db) (org_id slug : Str) (t : Team)
    → find_team db org_id slug ≡ some t
    → own_team db org_id t.id ≡ true
unfolding find_team
own_team-find_team db org_id slug t h =
    let (i, e) = find_row-In (has_slug org_id slug) t db.teams h in
    any_of-In (λ (x : Team). str_eq x.org_id org_id && str_eq x.id t.id) t db.teams i
      (ground (arith, e, str_eq_refl t.id))

pub own_repo-find_repo :
    (db : Db) (org_id name : Str) (r : Repository)
    → find_repo db org_id name ≡ some r
    → own_repo db org_id r.id ≡ true
unfolding find_repo
own_repo-find_repo db org_id name r h =
    let (i, e) =
      find_row-In (λ (x : Repository). str_eq x.org_id org_id && str_eq x.name name) r
        db.repositories h in
    any_of-In (λ (x : Repository). str_eq x.org_id org_id && str_eq x.id r.id) r db.repositories i
      (ground (arith, e, str_eq_refl r.id))

module _ (db : Db) (org_id name : Str) where
  own_repo-refers :
      (repo_id : Str)
      → not (refers db.repositories org_id name repo_id) ≡ false
      → not (own_repo db org_id repo_id) ≡ false
  own_repo-refers repo_id h =
      let (r, i, t) =
        any-In (λ r. gone org_id name r && str_eq r.id repo_id) db.repositories
          (ground (arith, h)) in
      ap not (
        any_of-In (λ (x : Repository). str_eq x.org_id org_id && str_eq x.id repo_id) r
          db.repositories i (ground (arith, t)))

  names-refers :
      (o : Option Str)
      → not (unwrap_or (option_map (refers db.repositories org_id name) o) false) ≡ false
      → not (names (own_repo db org_id) o) ≡ false
  names-refers none h = absurd (ground (arith, h))
  names-refers (some repo_id) h = own_repo-refers repo_id h

  referring {ℓ} :
      {A : Type ℓ} (repo_of : A → Str) (xs : List A)
      → filter
          (λ x. not (own_repo db org_id (repo_of x)))
          (filter (λ x. not (refers db.repositories org_id name (repo_of x))) xs)
        ≡ filter (λ x. not (own_repo db org_id (repo_of x))) xs
  referring repo_of xs =
      filter-filter (λ x. not (own_repo db org_id (repo_of x)))
        (λ x. not (refers db.repositories org_id name (repo_of x))) xs
        (λ x. own_repo-refers (repo_of x))

  pub outside-delete_repo : outside db org_id (delete_repo db org_id name) ≡ outside db org_id db
  unfolding outside delete_repo
  outside-delete_repo = λ i. record (outside db org_id db) {
    image_pulls =
        filter-filter (λ (p : ImagePull). not (str_eq p.org_id org_id))
          (λ p. not (str_eq p.org_id org_id && str_eq p.repo name)) db.image_pulls
          (λ p h. ground (arith, h)) i;
    repositories =
        filter-filter (λ (r : Repository). not (str_eq r.org_id org_id))
          (λ r. not (gone org_id name r)) db.repositories (λ r h. ground (arith, h)) i;
    team_repo_perms = referring (λ (p : TeamRepoPerm). p.repo_id) db.team_repo_perms i;
    manifests = referring (λ (m : Manifest). m.repo_id) db.manifests i;
    manifest_blobs = referring (λ (m : ManifestBlob). m.repo_id) db.manifest_blobs i;
    manifest_manifests = referring (λ (m : ManifestManifest). m.repo_id) db.manifest_manifests i;
    manifest_referrers = referring (λ (m : ManifestReferrer). m.repo_id) db.manifest_referrers i;
    tags = referring (λ (t : Tag). t.repo_id) db.tags i;
    access_tokens =
        filter-filter (λ (t : AccessToken). not (names (own_repo db org_id) t.scope_repo_id))
          (λ t.
            not (unwrap_or (option_map (refers db.repositories org_id name) t.scope_repo_id) false))
          db.access_tokens (λ t. names-refers t.scope_repo_id) i;
  }

-- ===== src/Iam/Handlers.antt =====
-- src/module/iam/adapter/handler: the response types, and the handlers behind the extractors, which
-- give them the state, the path's id, the identity of the caller and the payload.
use api_starter.Base.{String, List, map}
use api_starter.Base.Int.{ℤ}
use api_starter.Database.{Uuid}
use api_starter.Database.Effect.{Eff, ◌>>=◌, ◌>>◌, ret}
use api_starter.Errdef.{Error}
use api_starter.Auth.{Identity}
use api_starter.Iam.{
  CreateUser, UpdateUser, UserService, PermissionService, restricted_to_self, active_user_status,
}
use api_starter.Iam
use api_starter.Pagination.{ListRequest, MetaData, map_page}
use api_starter.Response.{Response, of_data, paginated}

pub record Company : Type 0 where
  pub company_id : ℤ
  pub name : String

pub record Department : Type 0 where
  pub department_id : ℤ
  pub department_name : String
  pub company : Company

pub record User : Type 0 where
  pub user_id : Uuid
  pub avatar_id : String
  pub user_name : String
  pub email : String
  pub first_name : String
  pub last_name : String
  pub status : String
  pub department : Department
  pub roles : List String

-- `User::from`
unfoldable pub from_user : Iam.User → User
from_user user = record {
  user_id = user.id;
  avatar_id = user.avatar_id;
  user_name = user.user_name;
  email = user.email;
  first_name = user.first_name;
  last_name = user.last_name;
  status = user.status.status;
  department = record {
    department_id = user.department.id;
    department_name = user.department.name;
    company = record {
      company_id = user.department.company.id;
      name = user.department.company.name;
    };
  };
  roles = map (λ role. role.name) user.roles;
}

pub record CreateUserRequest : Type 0 where
  pub user_name : String
  pub avatar_id : String
  pub email : String
  pub password : String
  pub first_name : String
  pub last_name : String
  pub department : ℤ
  pub roles : List String

pub record DeletedUser : Type 0 where
  pub message : String
  pub user_id : Uuid

module _ (service : UserService) where
  unfoldable pub index : ListRequest → Eff Error (Response (List User) MetaData)
  index request = do
    page ← service.index request
    let dtos = map_page from_user page
    ret (paginated dtos.rows dtos.meta)

  unfoldable pub create : Uuid → String → CreateUserRequest → Eff Error (Response Uuid MetaData)
  create fresh salt payload = do
    user_id ← service.create fresh salt (record {
      user_name = payload.user_name;
      avatar_id = payload.avatar_id;
      email = payload.email;
      password = payload.password;
      first_name = payload.first_name;
      last_name = payload.last_name;
      status = active_user_status;
      department_id = payload.department;
      roles = payload.roles;
    })
    ret (of_data user_id)

  unfoldable pub get : Uuid → Eff Error (Response User MetaData)
  get user_id = do user ← service.find_by_id user_id; ret (of_data (from_user user))

  unfoldable pub get_my_user : Identity → Eff Error (Response User MetaData)
  get_my_user auth_user = do user ← service.find_by_id auth_user.id; ret (of_data (from_user user))

  unfoldable pub patch : String → Uuid → UpdateUser → Eff Error (Response String MetaData)
  patch salt user_id payload = do
    service.partial_update salt user_id payload
    ret (of_data "successfully update user")

  unfoldable pub patch_my_user :
      String → Identity → UpdateUser → Eff Error (Response String MetaData)
  patch_my_user salt auth_user payload = do
    service.partial_update salt auth_user.id (restricted_to_self payload)
    ret (of_data "successfully update user")

  unfoldable pub delete : Uuid → Eff Error (Response DeletedUser MetaData)
  delete user_id = do
    service.delete user_id
    ret (of_data (record { message = "User deleted successfully"; user_id = user_id }))

-- The response type of `permission.rs`, and its handler.
pub record Permission : Type 0 where
  pub name : String
  pub resource : String
  pub in_module : String

abbrev from_permission : Iam.Permission → Permission
from_permission p = record { name = p.name; resource = p.resource; in_module = p.in_module }

unfoldable pub permission_index :
    PermissionService → Eff Error (Response (List Permission) MetaData)
permission_index service = do
  permissions ← service.list_all
  ret (of_data (map from_permission permissions))
